-- ===== src/Proposals/Dispatch.antt =====
-- Nothing is dispatched that was not confirmed.
use cli_bridge.Common.{
  Attempt, made, thrown, Attempt-cases, ℕ, suc, ◌≡◌, refl, sym, inl, inr, true, ◌||◌, String, none,
  some, List, [], ◌∷◌, arith, ltb, ◌==◌, nat_eq, string_eq, Bool-cases, Option-cases, All-In, get,
  values, get-All, get-IsKeyed, In,
}
use cli_bridge.Proposals.Model.{
  draft, awaiting_confirmation, confirmed, dispatching, returned, failed, paused, cancelled,
  timed_out, execution_proposal_status_eq, artifact_kind_eq, ExecutionProposal,
}
use cli_bridge.Proposals.Store.{
  Platform, Store, save, then_save, CreateInput, create_draft, draft_error, new_proposal,
  random_uuid,
}
use cli_bridge.Proposals.Operations.{
  ConfirmInput, Confirmed, accepted, refused, request_confirmation, confirm, edit, EditInput,
  mark_dispatching, mark_returned, mark_failed, pause, resume, cancel, mismatch, revised, settle,
  may_pause, may_cancel, resumed, may_not_edit,
}
use cli_bridge.Proposals.Calls.{
  Call, drafts, requests, confirms, edits, dispatches, returns, fails, pauses, resumes, cancels,
  step, run, grants, grants_of, empty,
}
use cli_bridge.Proposals.Confirming.{
  proposal_id, Granted, Passed-Granted, Backed, Sound, Sound-more, save-Sound, update-Sound,
  Follows-Backed,
}

draft-Backed :
    (gs : List (ℕ × ConfirmInput)) (p : ExecutionProposal)
    → p.confirmed_at ≡ none
    → p.status ≡ draft
    → Backed gs p
draft-Backed gs p c d n = absurd (ground (arith, c, d, n))

create_draft-Sound :
    (gs : List (ℕ × ConfirmInput)) (input : CreateInput) (now : ℕ) (s : Store)
    → Sound gs s
    → Sound gs (create_draft input now s).1
unfolding create_draft new_proposal
create_draft-Sound gs input now s h = elim (Option-cases (draft_error input)) [
  | inr (e, d) ↦ rw (d, create_draft) h
  | inl d ↦
      rw (d, create_draft)
        (save-Sound gs (new_proposal input (s.uuid s.drawn) now s.platform)
          (record s { drawn = suc s.drawn }) h (draft-Backed gs _ refl refl))
]

request_confirmation-Sound :
    (gs : List (ℕ × ConfirmInput)) (id : String) (now : ℕ) (s : Store)
    → Sound gs s
    → Sound gs (request_confirmation id now s).1
unfolding request_confirmation mismatch
request_confirmation-Sound gs id now s h = elim (Option-cases (get id s.proposals)) [
  | inl e ↦ rw (e, request_confirmation) h
  | inr (p, e) ↦ elim (Bool-cases (p.status == draft)) [
    | inr d ↦ rw (e, d, request_confirmation) h
    | inl d ↦
        let q : ExecutionProposal = record p {
          status = awaiting_confirmation;
          updated_at = now;
          confirmation_nonce = some (s.uuid s.drawn);
        } in
        rw (e, d, request_confirmation)
          (save-Sound gs q (record s { drawn = suc s.drawn }) h
            (Follows-Backed gs p q ((refl, refl, λ input. refl), ground arith)
              (get-All (Backed gs) id p s.proposals h.1 e)))
  ]
]

settle-store :
    (r : Attempt ExecutionProposal × Store) (answer : ExecutionProposal → Confirmed)
    → (settle r answer).1 ≡ r.1
settle-store (made p, s) answer = refl
settle-store (thrown es, s) answer = refl

confirm-Sound :
    (gs : List (ℕ × ConfirmInput)) (input : ConfirmInput) (now : ℕ) (s : Store)
    → Sound gs s
    → Sound ((now, input) ∷ gs) (confirm input now s).1
unfolding confirm mismatch
confirm-Sound gs input now s h0 =
    let more : List (ℕ × ConfirmInput) = (now, input) ∷ gs in
    let h : Sound more s = Sound-more (now, input) gs s h0 in
    elim (Option-cases (get input.proposal_id s.proposals)) [
      | inl e ↦ rw (e, confirm) h
      | inr (p, e) ↦ elim (Bool-cases (p.status == awaiting_confirmation)) [
        | inr a ↦ rw (e, a, confirm) h
        | inl a ↦ elim (Bool-cases (ltb p.expires_at now)) [
          | inl x ↦
              let q : ExecutionProposal = record p {
                status = timed_out;
                timed_out_at = some now;
                updated_at = now;
              } in
              rw (e, a, x, confirm, settle-store (save q s) (λ r. refused "confirmation-expired"))
                (save-Sound more q s h (
                  Follows-Backed more p q ((refl, refl, λ i. refl), ground arith)
                    (get-All (Backed more) input.proposal_id p s.proposals h.1 e)))
          | inr x ↦ elim (Option-cases (mismatch input p)) [
            | inr (reason, m) ↦ rw (e, a, x, m, confirm) h
            | inl m ↦
                let q : ExecutionProposal = record p {
                  status = confirmed;
                  confirmed_at = some now;
                  updated_at = now;
                } in
                rw (e, a, x, m, confirm, settle-store (save q s) (λ r. accepted r))
                  (save-Sound more q s h (λ n. (
                    now,
                    input,
                    inl refl,
                    sym (get-IsKeyed proposal_id input.proposal_id p s.proposals h.0 e),
                    m,
                    ground arith,
                  )))
          ]
        ]
      ]
    ]

then_save-Sound :
    (gs : List (ℕ × ConfirmInput)) (r : Attempt ExecutionProposal × Store) (q : ExecutionProposal)
    → Sound gs r.1
    → Backed gs q
    → Sound gs (then_save r q).1
unfolding then_save
then_save-Sound gs (made p, s) q h b = save-Sound gs q s h b
then_save-Sound gs (thrown es, s) q h b = h

edit-Sound :
    (gs : List (ℕ × ConfirmInput)) (id : String) (input : EditInput) (now : ℕ) (s : Store)
    → Sound gs s
    → Sound gs (edit id input now s).1
unfolding edit revised mismatch
edit-Sound gs id input now s h = elim (Option-cases (get id s.proposals)) [
  | inl e ↦ rw (e, edit) h
  | inr (p, e) ↦ elim (Bool-cases (may_not_edit p.status)) [
    | inl m ↦ rw (e, m, edit) h
    | inr m ↦
        let old : ExecutionProposal = record p {
          status = cancelled;
          cancelled_at = some now;
          updated_at = now;
        } in
        let r : Attempt ExecutionProposal × Store = save old s in
        let n : String × Store = random_uuid r.1 in
        let new : ExecutionProposal = revised old input n.0 now s.platform in
        let old' : ExecutionProposal = record old { superseded_by_proposal_id = some new.id } in
        let b = get-All (Backed gs) id p s.proposals h.1 e in
        let h' : Sound gs r.1 =
          save-Sound gs old s h
            (Follows-Backed gs p old ((refl, refl, λ i. refl), ground arith) b) in
        elim (Attempt-cases r.0) [
          | inl (es, t) ↦ rw (e, m, t, edit) h
          | inr (q, t) ↦
              rw (e, m, t, edit)
                (then_save-Sound gs (save old' n.1) new
                  (save-Sound gs old' n.1 h'
                    (Follows-Backed gs p old' ((refl, refl, λ i. refl), ground arith) b))
                  (draft-Backed gs new refl refl))
        ]
  ]
]

step-Sound :
    (gs : List (ℕ × ConfirmInput)) (now : ℕ) (c : Call) (s : Store)
    → Sound gs s
    → Sound (grants_of (now, c) gs) (step s (now, c))
unfolding step mark_dispatching mark_returned mark_failed pause resume cancel mismatch
step-Sound gs now (drafts input) s h = create_draft-Sound gs input now s h
step-Sound gs now (requests id) s h = request_confirmation-Sound gs id now s h
step-Sound gs now (confirms input) s h = confirm-Sound gs input now s h
step-Sound gs now (edits id input) s h = edit-Sound gs id input now s h
step-Sound gs now (dispatches id) s h =
    update-Sound gs id (λ status. status == confirmed) _
      (λ (p : ExecutionProposal). record p {
        status = dispatching;
        dispatching_at = some now;
        updated_at = now;
      })
      s (λ p a. ((refl, refl, λ i. refl), ground arith)) h
step-Sound gs now (returns id result) s h =
    update-Sound gs id (λ status. true) ""
      (λ (p : ExecutionProposal). record p {
        status = returned;
        returned_at = some now;
        updated_at = now;
        result = some result;
      })
      s (λ p a. ((refl, refl, λ i. refl), ground arith)) h
step-Sound gs now (fails id reason) s h =
    update-Sound gs id (λ status. true) ""
      (λ (p : ExecutionProposal). record p {
        status = failed;
        failed_at = some now;
        failure_reason = some reason;
        updated_at = now;
      })
      s (λ p a. ((refl, refl, λ i. refl), ground arith)) h
step-Sound gs now (pauses id reason) s h =
    update-Sound gs id may_pause _
      (λ (p : ExecutionProposal). record p {
        status = paused;
        paused_at = some now;
        failure_reason = some reason;
        updated_at = now;
      })
      s (λ p a. ((refl, refl, λ i. refl), ground arith)) h
step-Sound gs now (resumes id) s h =
    update-Sound gs id (λ status. status == paused) _
      (λ (p : ExecutionProposal). record p {
        status = resumed p.confirmed_at;
        failure_reason = none;
        updated_at = now;
      })
      s (λ p a. ((refl, refl, λ i. refl), ground arith)) h
step-Sound gs now (cancels id) s h =
    update-Sound gs id may_cancel _
      (λ (p : ExecutionProposal). record p {
        status = cancelled;
        cancelled_at = some now;
        updated_at = now;
      })
      s (λ p a. ((refl, refl, λ i. refl), ground arith)) h

run-Sound :
    (gs : List (ℕ × ConfirmInput)) (cs : List (ℕ × Call)) (s : Store)
    → Sound gs s
    → Sound (grants cs gs) (run s cs)
unfolding run
run-Sound gs [] s h = h
run-Sound gs ((now, c) ∷ cs) s h =
    run-Sound (grants_of (now, c) gs) cs (step s (now, c)) (step-Sound gs now c s h)

-- In every store that calls, hydrations apart, reach from an empty one, in whatever order and with any
-- pauses and resumptions in between: a proposal that is confirmed or dispatching was confirmed by a
-- call that named its identifier, plan, step, artifact, content, binding, endpoint, permission profile
-- and project, at a time when it had not expired.
pub run-Granted :
    (env : Platform) (cs : List (ℕ × Call)) (p : ExecutionProposal)
    → In p (values (run (empty env) cs).proposals)
    → (p.status == confirmed || p.status == dispatching) ≡ true
    → Granted (grants cs []) p
run-Granted env cs p i live = Passed-Granted (grants cs []) p (
    All-In (Backed (grants cs [])) (values (run (empty env) cs).proposals)
      (run-Sound [] cs (empty env) (tt, tt)).1 i (ground (arith, live)))
