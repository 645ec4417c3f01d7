-- ===== src/Reviews/Touching.antt =====
-- What the operations of storage/pending-review-store.ts do to the reviews that are stored.
use cli_bridge.Endpoints.Model.{review}
use cli_bridge.Endpoints.Registry.{RegistryResult, ok, refused, validate_action}
use cli_bridge.Common.{
  ℕ, ◌≡◌, refl, ap, ◌∙◌, ◌⊎◌, inl, inr, Bool, true, not, ◌&&◌, ◌||◌, String, none, some, List, [],
  ◌∷◌, arith, ◌==◌, nat_eq, string_eq, Bool-cases, Option-cases, is_some, get, set, get-IsKeyed,
  truthy,
}
use cli_bridge.Services.Audit.{AuditEventType, Outcome}
use cli_bridge.Services.Packets.{BridgePacket, id_or_uuid, create_packet, random_uuid}
use cli_bridge.Reviews.Model.{
  AgentReviewStatus, draft, confirmed, sent, returned, agent_review_status_eq, AgentReviewRequest,
  AgentReviewResult, validate_agent_review_request, validate_agent_review_result,
}
use cli_bridge.Reviews.Store.{
  Store, with_services, CreateInput, review_packet, new_review, keep_review, draft_refusal,
  create_draft,
}
use cli_bridge.Reviews.Operations.{
  move_on, previewed_review, preview, confirmed_review, confirm, cancelled_review, cancel,
  failed_review, fail, sent_review, send, send_confirmed, ReturnInput, returned_review, hand_on,
  keep_result, return_result,
}
use cli_bridge.Reviews.Calls.{
  Call, creates, previews, confirms, sends, returns, cancels, fails, step, review_id, HasKeys,
  created_id, IsFresh, may_move,
}

abbrev pub past_confirmation : AgentReviewStatus → Bool
past_confirmation status = status == confirmed || status == sent || status == returned

abbrev pub past_sending : AgentReviewStatus → Bool
past_sending status = status == sent || status == returned

-- A review that was sent had been confirmed, and one that was returned had been sent.
unfoldable pub is_stamped : AgentReviewRequest → Bool
is_stamped r =
    (not (past_confirmation r.status) || is_some r.confirmed_at)
    && (not (past_sending r.status) || is_some r.sent_at)

-- What a review keeps for good.
abbrev pub Keeps : AgentReviewRequest → AgentReviewRequest → Type 0
Keeps r q =
    (q.id ≡ r.id)
    × (q.session_id ≡ r.session_id)
    × (q.source_endpoint_id ≡ r.source_endpoint_id)
    × (q.target_endpoint_id ≡ r.target_endpoint_id)
    × (q.packet_id ≡ r.packet_id)
    × (q.project_id ≡ r.project_id)
    × (q.prompt ≡ r.prompt)

-- One edge of the lifecycle.
abbrev Moves : AgentReviewRequest → AgentReviewRequest → Type 0
Moves r q =
    Keeps r q × (may_move r.status q.status ≡ true) × (is_stamped r ≡ true → is_stamped q ≡ true)

-- What a call does to the reviews: nothing, or one new draft, or one review moves along an edge.
abbrev pub Touches : Store → Store → Type 0
Touches s t =
    (t.reviews ≡ s.reviews)
    ⊎ ((q : AgentReviewRequest) × (get q.id s.reviews ≡ none)
        × (q.status ≡ draft)
        × (t.reviews ≡ set q.id q s.reviews))
    ⊎ ((r : AgentReviewRequest) × (q : AgentReviewRequest) × (get r.id s.reviews ≡ some r)
        × Moves r q
        × (t.reviews ≡ set q.id q s.reviews))

at_own_id :
    (id : String) (r : AgentReviewRequest) (s : Store)
    → HasKeys s
    → get id s.reviews ≡ some r
    → get r.id s.reviews ≡ some r
at_own_id id r s h e = ap (λ j. get j s.reviews) (get-IsKeyed review_id id r s.reviews h e) ∙ e

move_on-Touches :
    (id : String) (allowed : AgentReviewStatus → Bool) (f : AgentReviewRequest → AgentReviewRequest)
    (type : AuditEventType) (result : Outcome) (now : ℕ) (s : Store)
    → HasKeys s
    → ((r : AgentReviewRequest) → allowed r.status ≡ true → Moves r (f r))
    → Touches s (move_on id allowed f type result now s).1
unfolding move_on
move_on-Touches id allowed f type result now s h m = elim (Option-cases (get id s.reviews)) [
  | inl e ↦ rw (e, move_on) (inl refl)
  | inr (r, e) ↦ elim (Bool-cases (allowed r.status)) [
    | inr a ↦ rw (e, a, move_on) (inl refl)
    | inl a ↦ rw (e, a, move_on) (inr (inr (r, f r, at_own_id id r s h e, m r a, refl)))
  ]
]

keep_review-Touches :
    (packet : BridgePacket) (r : AgentReviewRequest) (now : ℕ) (s : Store) (errors : List String)
    → get r.id s.reviews ≡ none
    → r.status ≡ draft
    → Touches s (keep_review packet r now s errors).1
unfolding keep_review
keep_review-Touches packet r now s [] fresh d = inr (inl (r, fresh, d, refl))
keep_review-Touches packet r now s (e ∷ es) fresh d = inl refl

create_draft-Touches :
    (input : CreateInput) (now : ℕ) (s : Store)
    → get (created_id input s) s.reviews ≡ none
    → Touches s (create_draft input now s).1
unfolding create_draft new_review review_packet create_packet id_or_uuid random_uuid
create_draft-Touches input now s fresh = elim (Option-cases (draft_refusal input s.registry)) [
  | inr (reason, e) ↦ rw (e, create_draft) (inl refl)
  | inl e ↦
      rw (e, create_draft)
        (keep_review-Touches (review_packet input now s).0
          (new_review input (review_packet input now s).0
            (id_or_uuid input.id (review_packet input now s).1).0 now)
          now (with_services (id_or_uuid input.id (review_packet input now s).1).1 s)
          (validate_agent_review_request _) (ground arith) refl)
]

send-Touches :
    (r : AgentReviewRequest) (now : ℕ) (s : Store)
    → get r.id s.reviews ≡ some r
    → Touches s (send r now s).1
unfolding send is_stamped
send-Touches r now s e = sends_if (validate_action r.target_endpoint_id review s.registry) refl
  where
    sends_if :
        (v : RegistryResult)
        → validate_action r.target_endpoint_id review s.registry ≡ v
        → Touches s (send r now s).1
    sends_if (refused why) f = rw (f, send) (inl refl)
    sends_if ok f = elim (Bool-cases (r.status == confirmed)) [
      | inr g ↦ rw (f, g, send) (inl refl)
      | inl g ↦
          rw (f, g, send)
            (inr (
              inr (
                r,
                sent_review now r,
                e,
                ((refl, refl, refl, refl, refl, refl, refl), ground arith, λ st. ground arith),
                refl,
              )))
    ]

send_confirmed-Touches :
    (id : String) (now : ℕ) (s : Store) → HasKeys s → Touches s (send_confirmed id now s).1
unfolding send_confirmed
send_confirmed-Touches id now s h = elim (Option-cases (get id s.reviews)) [
  | inl e ↦ rw (e, send_confirmed) (inl refl)
  | inr (r, e) ↦ rw (e, send_confirmed) (send-Touches r now s (at_own_id id r s h e))
]

pub hand_on-reviews :
    (r : AgentReviewRequest) (result : AgentReviewResult) (now : ℕ) (s : Store)
    → ((hand_on r result now s).1.reviews ≡ s.reviews)
      × ((hand_on r result now s).1.results ≡ s.results)
unfolding hand_on
hand_on-reviews r result now s = elim (Option-cases (truthy result.next_prompt_draft)) [
  | inl e ↦ rw (e, hand_on) (refl, refl)
  | inr (text, e) ↦ rw (e, hand_on) (refl, refl)
]

keep_result-Touches :
    (r : AgentReviewRequest) (result : AgentReviewResult) (now : ℕ) (s : Store)
    (errors : List String)
    → get r.id s.reviews ≡ some r
    → (r.status == sent) ≡ true
    → Touches s (keep_result r result now s errors).1
unfolding keep_result is_stamped
keep_result-Touches r result now s (x ∷ xs) e g = inl refl
keep_result-Touches r result now s [] e g = inr (
    inr (
      r,
      returned_review now r,
      e,
      ((refl, refl, refl, refl, refl, refl, refl), ground arith, λ st. ground arith),
      (hand_on-reviews (returned_review now r) result now _).0,
    ))

return_result-Touches :
    (id : String) (input : ReturnInput) (now : ℕ) (s : Store)
    → HasKeys s
    → Touches s (return_result id input now s).1
unfolding return_result
return_result-Touches id input now s h = elim (Option-cases (get id s.reviews)) [
  | inl e ↦ rw (e, return_result) (inl refl)
  | inr (r, e) ↦ elim (Bool-cases (r.status == sent)) [
    | inr g ↦ rw (e, g, return_result) (inl refl)
    | inl g ↦
        rw (e, g, return_result)
          (keep_result-Touches r _ now _ (validate_agent_review_result _) (at_own_id id r s h e) g)
  ]
]

pub step-Touches : (s : Store) (c : ℕ × Call) → HasKeys s → IsFresh s c.1 → Touches s (step s c)
unfolding step preview confirm cancel fail is_stamped
step-Touches s (now, creates input) h fresh = create_draft-Touches input now s fresh
step-Touches s (now, previews id) h fresh =
    move_on-Touches id _ (previewed_review now) _ _ now s h
      (λ r a. ((refl, refl, refl, refl, refl, refl, refl), ground arith, λ st. ground arith))
step-Touches s (now, confirms id) h fresh =
    move_on-Touches id _ (confirmed_review now) _ _ now s h
      (λ r a. ((refl, refl, refl, refl, refl, refl, refl), ground arith, λ st. ground arith))
step-Touches s (now, sends id) h fresh = send_confirmed-Touches id now s h
step-Touches s (now, returns id input) h fresh = return_result-Touches id input now s h
step-Touches s (now, cancels id) h fresh =
    move_on-Touches id _ (cancelled_review now) _ _ now s h
      (λ r a. ((refl, refl, refl, refl, refl, refl, refl), ground arith, λ st. ground arith))
step-Touches s (now, fails id reason) h fresh =
    move_on-Touches id _ (failed_review reason now) _ _ now s h
      (λ r a. ((refl, refl, refl, refl, refl, refl, refl), ground arith, λ st. ground arith))
