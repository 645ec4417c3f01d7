-- ===== src/Outbound/Counts.antt =====
-- The status view counts every prompt once, but for those that are `delivered`.
use cli_bridge.Common.{
  ℕ, ◌+◌, ◌≡◌, refl, sym, List, [], ◌∷◌, arith, ltb, nat_eq, string_eq, length, any, values,
}
use cli_bridge.Outbound.Prompts.{
  queued, claimed, delivered, waiting_manual_send, submitted, responding, response_ready, returned,
  completed, expired, failed, cancelled, status_eq, OutboundPrompt,
}
use cli_bridge.Outbound.Store.{Store, is_pending}
use cli_bridge.Outbound.Reports.{StatusView, count, create_status_view}

abbrev pub listed : StatusView → ℕ
listed v =
    v.queued + v.claimed + v.waiting_manual_send + v.submitted + v.responding + v.response_ready
    + v.returned + v.completed + v.expired + v.failed + v.cancelled

total_count :
    (ps : List OutboundPrompt)
    → length ps
      ≡ count queued ps
        + count claimed ps
        + count waiting_manual_send ps
        + count submitted ps
        + count responding ps
        + count response_ready ps
        + count returned ps
        + count completed ps
        + count expired ps
        + count failed ps
        + count cancelled ps
        + count delivered ps
unfolding count
total_count [] = omega arith
total_count (p ∷ ps) = ground (arith, total_count ps)

pending_count :
    (ps : List OutboundPrompt)
    → any (λ (p : OutboundPrompt). is_pending p.status) ps
      ≡ ltb 0 (count queued ps + count claimed ps + count waiting_manual_send ps)
unfolding count
pending_count [] = refl
pending_count (p ∷ ps) = ground (arith, pending_count ps)

-- The total of the status view is the sum of its counts and of the prompts that are `delivered`, and
-- `active` says whether some prompt can still be claimed, acknowledged or submitted.
pub create_status_view-total :
    (s : Store)
    → let v = create_status_view s in
      (v.total ≡ listed v + count delivered (values s.prompts))
      × (v.active ≡ any (λ (p : OutboundPrompt). is_pending p.status) (values s.prompts))
unfolding create_status_view
create_status_view-total s =
    (total_count (values s.prompts), sym (pending_count (values s.prompts)))
