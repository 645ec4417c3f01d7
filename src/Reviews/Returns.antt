-- ===== src/Reviews/Returns.antt =====
-- The results that storage/pending-review-store.ts keeps.
use cli_bridge.Common.{
  ℕ, ◌≡◌, refl, ap, ◌∙◌, ◌⊎◌, inl, inr, Bool, true, false, String, none, some, List, [], ◌∷◌, arith,
  ◌==◌, nat_eq, string_eq, Bool-cases, Option-cases, All, All-map, get, set, values, All-values-set,
  get-set_self,
}
use cli_bridge.Services.Audit.{AuditEventType, Outcome}
use cli_bridge.Services.Packets.{BridgePacket, id_or_uuid}
use cli_bridge.Reviews.Model.{
  AgentReviewStatus, confirmed, sent, returned, agent_review_status_eq, AgentReviewRequest,
  AgentReviewResult, validate_agent_review_request, validate_agent_review_result,
}
use cli_bridge.Reviews.Store.{
  Store, services, with_services, CreateInput, save, audit, review_packet, keep_review,
  draft_refusal, create_draft,
}
use cli_bridge.Reviews.Operations.{
  move_on, preview, confirm, cancel, fail, send, send_confirmed, ReturnInput, returned_review,
  new_result, hand_on, return_event, save_result, keep_result, return_result,
}
use cli_bridge.Reviews.Calls.{
  Call, creates, previews, confirms, sends, returns, cancels, fails, step, run, HasKeys, IsFresh,
  IsFreshAll,
}
use cli_bridge.Reviews.Touching.{hand_on-reviews}
use cli_bridge.Reviews.Lifecycle.{Follows, step-HasKeys, step-Follows}
use cli_bridge.Endpoints.Model.{review}
use cli_bridge.Endpoints.Registry.{validate_action}
use cli_bridge.Reviews.Sending.{verdict-cases}

unfoldable pub is_returned : String → Store → Bool
is_returned id s = elim (get id s.reviews) [ none ↦ false | some r ↦ r.status == returned ]

-- What a call does to the results: nothing, or one result for a review that is then returned.
abbrev Adds : Store → Store → Type 0
Adds s t =
    (t.results ≡ s.results)
    ⊎ ((result : AgentReviewResult) × (is_returned result.review_request_id t ≡ true)
        × (t.results ≡ set result.id result s.results))

move_on-results :
    (id : String) (allowed : AgentReviewStatus → Bool) (f : AgentReviewRequest → AgentReviewRequest)
    (type : AuditEventType) (result : Outcome) (now : ℕ) (s : Store)
    → (move_on id allowed f type result now s).1.results ≡ s.results
unfolding move_on
move_on-results id allowed f type result now s = elim (Option-cases (get id s.reviews)) [
  | inl e ↦ rw (e, move_on) refl
  | inr (r, e) ↦ elim (Bool-cases (allowed r.status)) [
    | inr a ↦ rw (e, a, move_on) refl
    | inl a ↦ rw (e, a, move_on) refl
  ]
]

keep_review-results :
    (packet : BridgePacket) (r : AgentReviewRequest) (now : ℕ) (s : Store) (errors : List String)
    → (keep_review packet r now s errors).1.results ≡ s.results
unfolding keep_review
keep_review-results packet r now s [] = refl
keep_review-results packet r now s (e ∷ es) = refl

create_draft-results :
    (input : CreateInput) (now : ℕ) (s : Store) → (create_draft input now s).1.results ≡ s.results
unfolding create_draft
create_draft-results input now s = elim (Option-cases (draft_refusal input s.registry)) [
  | inr (reason, e) ↦ rw (e, create_draft) refl
  | inl e ↦
      rw (e, create_draft)
        (keep_review-results (review_packet input now s).0 _ now
          (with_services (id_or_uuid input.id (review_packet input now s).1).1 s)
          (validate_agent_review_request _))
]

send_confirmed-results :
    (id : String) (now : ℕ) (s : Store) → (send_confirmed id now s).1.results ≡ s.results
unfolding send_confirmed send
send_confirmed-results id now s = elim (Option-cases (get id s.reviews)) [
  | inl e ↦ rw (e, send_confirmed) refl
  | inr (r, e) ↦ elim (verdict-cases (validate_action r.target_endpoint_id review s.registry)) [
    | inr (why, f) ↦ rw (e, f, send_confirmed, send) refl
    | inl f ↦ elim (Bool-cases (r.status == confirmed)) [
      | inl g ↦ rw (e, f, g, send_confirmed, send) refl
      | inr g ↦ rw (e, f, g, send_confirmed, send) refl
    ]
  ]
]

is_returned-get :
    (k : String) (q : AgentReviewRequest) (s : Store)
    → get k s.reviews ≡ some q
    → (q.status == returned) ≡ true
    → is_returned k s ≡ true
unfolding is_returned
is_returned-get k q s e f = rw (e, is_returned) f

keep_result-Adds :
    (r : AgentReviewRequest) (result : AgentReviewResult) (now : ℕ) (s : Store)
    (errors : List String)
    → result.review_request_id ≡ r.id
    → Adds s (keep_result r result now s errors).1
unfolding keep_result is_returned
keep_result-Adds r result now s (x ∷ xs) own = inl refl
keep_result-Adds r result now s [] own =
    let q : AgentReviewRequest = returned_review now r in
    let saved : Store = audit (return_event now q) (save_result result (save q s)) in
    let kept = hand_on-reviews q result now saved in
    let there =
      ap (get result.review_request_id) kept.0
      ∙ ap (λ j. get j (set r.id q s.reviews)) own
      ∙ get-set_self r.id q s.reviews in
    inr (
      result,
      is_returned-get result.review_request_id q (hand_on q result now saved).1 there refl,
      kept.1,
    )

return_result-Adds :
    (id : String) (input : ReturnInput) (now : ℕ) (s : Store)
    → Adds s (return_result id input now s).1
unfolding return_result new_result
return_result-Adds id input now s = elim (Option-cases (get id s.reviews)) [
  | inl e ↦ rw (e, return_result) (inl refl)
  | inr (r, e) ↦ elim (Bool-cases (r.status == sent)) [
    | inr g ↦ rw (e, g, return_result) (inl refl)
    | inl g ↦
        rw (e, g, return_result)
          (keep_result-Adds r (new_result r input (id_or_uuid input.id (services s)).0 now) now
            (with_services (id_or_uuid input.id (services s)).1 s) (validate_agent_review_result _)
            refl)
  ]
]

step-Adds : (s : Store) (c : ℕ × Call) → Adds s (step s c)
unfolding step preview confirm cancel fail
step-Adds s (now, creates input) = inl (create_draft-results input now s)
step-Adds s (now, previews id) = inl (move_on-results id _ _ _ _ now s)
step-Adds s (now, confirms id) = inl (move_on-results id _ _ _ _ now s)
step-Adds s (now, sends id) = inl (send_confirmed-results id now s)
step-Adds s (now, returns id input) = return_result-Adds id input now s
step-Adds s (now, cancels id) = inl (move_on-results id _ _ _ _ now s)
step-Adds s (now, fails id reason) = inl (move_on-results id _ _ _ _ now s)

Follows-returned :
    (r q : AgentReviewRequest)
    → Follows r q
    → (r.status == returned) ≡ true
    → (q.status == returned) ≡ true
Follows-returned r q (inl same) e = rw same e
Follows-returned r q (inr (kept, moved)) e = absurd (ground arith)

step_returned :
    (s : Store) (c : ℕ × Call) (k : String)
    → HasKeys s
    → IsFresh s c.1
    → is_returned k s ≡ true
    → is_returned k (step s c) ≡ true
unfolding is_returned
step_returned s c k h fresh e = elim (Option-cases (get k s.reviews)) [
  | inl gone ↦ absurd (never (rw (gone, is_returned) at e))
  | inr (r, there) ↦
      let (q, there', follows) = step-Follows s c k r h fresh there in
      rw (there', is_returned) (Follows-returned r q follows (rw (there, is_returned) at e))
]
  where
    never : false ≡ true → ⊥
    never x = cc

abbrev pub AllReturned : Store → Type 0
AllReturned s =
    All (λ (x : AgentReviewResult). is_returned x.review_request_id s ≡ true) (values s.results)

-- Every result that the store keeps belongs to a review that is returned, after any history whose
-- drafts take identifiers that are not in use, if this is so at the start.
pub run-AllReturned :
    (s : Store) (cs : List (ℕ × Call))
    → HasKeys s
    → IsFreshAll s cs
    → AllReturned s
    → AllReturned (run s cs)
unfolding run
run-AllReturned s [] h fresh all_returned = all_returned
run-AllReturned s (c ∷ cs) h fresh all_returned =
    run-AllReturned (step s c) cs (step-HasKeys s c h fresh.0) fresh.1 (kept (step-Adds s c))
  where
    still :
        AllReturned s
        → All
            (λ (x : AgentReviewResult). is_returned x.review_request_id (step s c) ≡ true)
            (values s.results)
    still =
        All-map (λ (x : AgentReviewResult) e. step_returned s c x.review_request_id h fresh.0 e)
          (values s.results)

    kept : Adds s (step s c) → AllReturned (step s c)
    kept (inl same) = rw same (still all_returned)
    kept (inr (x, returned_now, same)) = rw same (
        All-values-set
          (λ (y : AgentReviewResult). is_returned y.review_request_id (step s c) ≡ true) x.id x
          s.results (still all_returned) returned_now)
