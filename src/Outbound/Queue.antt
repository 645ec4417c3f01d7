-- ===== src/Outbound/Queue.antt =====
-- Whom `claimNext` serves.
use cli_bridge.Common.{
  head?-sort_by-none, ℕ, ◌≤◌, ◌≡◌, refl, sym, ◌∙◌, inl, inr, Bool, true, ◌&&◌, Option, none, some,
  List, [], ◌∷◌, arith, leb, nat_eq, string_eq, Bool-cases, Option-cases, filter, head?, Map, get,
  values, map_values, get-set_self, In-values, In-filter, head?-sort_by-In, head?-sort_by-IsFirst,
  IsFirst, In, sort_by,
}
use cli_bridge.Outbound.Prompts.{claimed, status_eq, OutboundPrompt}
use mathlib.Core.Path.{ap₂}
use cli_bridge.Services.Packets.{random_uuid}
use cli_bridge.Outbound.Store.{Store, recover_prompt, recover_stale_claims}
use cli_bridge.Outbound.Delivery.{claim_next, claim, next_queued, claim_prompt, is_queued}
use cli_bridge.Outbound.Calls.{HasKeys, prompt_id, content}
use cli_bridge.Outbound.Lifecycle.{recover_prompt-queued}

-- A prompt that can still be handed out.
abbrev pub is_live : ℕ → OutboundPrompt → Bool
is_live now p = is_queued p && leb now p.expires_at

recover_prompt_live :
    (now : ℕ) (p : OutboundPrompt) → is_queued (recover_prompt now p) ≡ is_live now p
unfolding recover_prompt
recover_prompt_live now p = ground arith

-- Recovery leaves in the queue the prompts that are live, as they were.
filter-recover :
    (now : ℕ) (m : Map OutboundPrompt)
    → filter is_queued (values (map_values (recover_prompt now) m))
      ≡ filter (is_live now) (values m)
unfolding map_values
filter-recover now [] = refl
filter-recover now ((k, p) ∷ m) = elim (Bool-cases (is_live now p)) [
  | inl live ↦
      let still = recover_prompt_live now p ∙ live in
      rw (still, live)
        (ap₂ (λ q qs. q ∷ qs) (recover_prompt-queued now p still) (filter-recover now m))
  | inr gone ↦ rw (recover_prompt_live now p ∙ gone, gone) (filter-recover now m)
]

abbrev pub live_queue : ℕ → Store → List OutboundPrompt
live_queue now s = filter (is_live now) (values s.prompts)

next_queued_recovered :
    (now : ℕ) (s : Store)
    → next_queued (recover_stale_claims now s)
      ≡ head? (sort_by (λ (p : OutboundPrompt). p.created_at) (live_queue now s))
unfolding next_queued recover_stale_claims
next_queued_recovered now s = rw (filter-recover now s.prompts)

In-live_queue :
    (now : ℕ) (s : Store) (p : OutboundPrompt)
    → HasKeys s
    → In p (live_queue now s)
    → (get p.id s.prompts ≡ some p) × (is_live now p ≡ true)
In-live_queue now s p h i =
    let found = In-filter (is_live now) p (values s.prompts) i in
    (In-values prompt_id p s.prompts h found.0, found.1)

-- What a claim that is served returns, in terms of the store before it.
abbrev pub IsServed : ℕ → Store → Store → OutboundPrompt → Type 0
IsServed now s t q =
    (p : OutboundPrompt) × IsFirst (λ (r : OutboundPrompt). r.created_at) p (live_queue now s)
    × (get p.id s.prompts ≡ some p)
    × (now ≤ p.expires_at)
    × (content q ≡ content p)
    × (q.status ≡ claimed)
    × (q.claim_token ≡ some (s.uuid s.drawn))
    × (q.claimed_at ≡ some now)
    × (get p.id t.prompts ≡ some q)

abbrev pub Serves : ℕ → Store → Option OutboundPrompt × Store → Type 0
Serves now s (none, t) = live_queue now s ≡ []
Serves now s (some q, t) = IsServed now s t q

served :
    (now : ℕ) (s : Store) (p : OutboundPrompt)
    → HasKeys s
    → next_queued (recover_stale_claims now s) ≡ some p
    → IsServed now s
        (claim now (recover_stale_claims now s) p).1
        (claim now (recover_stale_claims now s) p).0
unfolding claim claim_prompt random_uuid recover_stale_claims
served now s p h e =
    let chosen : head? (sort_by (λ (r : OutboundPrompt). r.created_at) (live_queue now s))
        ≡ some p =
      sym (next_queued_recovered now s) ∙ e in
    let found = In-live_queue now s p h (head?-sort_by-In _ p (live_queue now s) chosen) in
    (
      p,
      head?-sort_by-IsFirst _ p (live_queue now s) chosen,
      found.0,
      ground arith,
      refl,
      refl,
      refl,
      refl,
      get-set_self p.id _ _,
    )

-- `claimNext` returns nothing exactly when no queued prompt is within its authorisation; else it
-- returns the one that was created first, the first of equals in the order of the store, claimed
-- under a new token, and that prompt is what the store then holds under its identifier.
pub claim_next-Serves : (now : ℕ) (s : Store) → HasKeys s → Serves now s (claim_next now s)
unfolding claim_next
claim_next-Serves now s h = elim (Option-cases (next_queued (recover_stale_claims now s))) [
  | inl e ↦
      rw (e, claim_next)
        (head?-sort_by-none _ (live_queue now s) (sym (next_queued_recovered now s) ∙ e))
  | inr (p, e) ↦ rw (e, claim_next) (served now s p h e)
]
