-- ===== src/Proposals/Operations.antt =====
-- What happens to a proposal after its draft: confirmation, edits, dispatch and its ends.
use cli_bridge.Common.{
  Attempt, made, thrown, ℕ, Bool, true, false, String, Option, none, some, List, [], ◌∷◌, ◌++◌,
  if◌then◌else◌, ltb, ◌==◌, nat_eq, string_eq, head?, get, values,
}
use cli_bridge.Proposals.Model.{
  ExecutionProposalStatus, draft, awaiting_confirmation, confirmed, dispatching, returned, failed,
  paused, cancelled, timed_out, execution_proposal_status_eq, artifact_kind_eq, ReasoningArtifact,
  RunResult, ExecutionProposal,
}
use cli_bridge.Proposals.Store.{
  Platform, Store, random_uuid, save, then_save, content_hash_of, unless, update,
}

unfoldable pub request_confirmation : String → ℕ → Store → Attempt ExecutionProposal × Store
unfolding save
request_confirmation id now s = elim (get id s.proposals) [
  | none ↦ (thrown ("proposal-not-found" ∷ []), s)
  | some p ↦
      if p.status == draft
      then (let n = random_uuid s in
          save
            (record p {
              status = awaiting_confirmation;
              updated_at = now;
              confirmation_nonce = some n.0;
            })
            n.1)
      else (thrown ("proposal-not-draft" ∷ []), s)
]

pub record ConfirmInput : Type 0 where
  pub proposal_id : String
  pub plan_id : String
  pub step_id : String
  pub artifact_id : String
  pub content_hash : String
  pub binding_hash : String
  pub execution_endpoint_id : String
  pub execution_permission_profile : String
  pub project_id : String

pub data Confirmed : Type 0 where
  accepted : ExecutionProposal → Confirmed
  refused : String → Confirmed

-- The first field in which the confirmation differs from the proposal.
unfoldable pub mismatch : ConfirmInput → ExecutionProposal → Option String
mismatch input p = head? (
    unless (input.plan_id == p.plan_id) "confirmation-plan-mismatch"
    ++ unless (input.step_id == p.step_id) "confirmation-step-mismatch"
    ++ unless (input.artifact_id == p.artifact_id) "confirmation-artifact-mismatch"
    ++ unless (input.content_hash == p.content_hash) "confirmation-content-mismatch"
    ++ unless (input.binding_hash == p.binding_hash) "confirmation-binding-mismatch"
    ++ unless (input.execution_endpoint_id == p.execution_endpoint_id)
        "confirmation-endpoint-mismatch"
    ++ unless (input.execution_permission_profile == p.execution_permission_profile)
        "confirmation-permission-profile-mismatch"
    ++ unless (input.project_id == p.project_id) "confirmation-project-mismatch")

-- The answer of `confirm` when its save did not throw.
abbrev pub settle :
    Attempt ExecutionProposal × Store → (ExecutionProposal → Confirmed) → Attempt Confirmed × Store
settle (made p, s) answer = (made (answer p), s)
settle (thrown es, s) answer = (thrown es, s)

abbrev confirmation_refusal : ExecutionProposalStatus → String
confirmation_refusal cancelled = "proposal-cancelled"
confirmation_refusal paused = "proposal-paused"
confirmation_refusal _ = "proposal-not-awaiting-confirmation"

unfoldable pub confirm : ConfirmInput → ℕ → Store → Attempt Confirmed × Store
unfolding save
confirm input now s = elim (get input.proposal_id s.proposals) [
  | none ↦ (made (refused "proposal-not-found"), s)
  | some p ↦
      if p.status == awaiting_confirmation
      then (if ltb p.expires_at now
          then settle
              (save (record p { status = timed_out; timed_out_at = some now; updated_at = now }) s)
              (λ q. refused "confirmation-expired")
          else (elim (mismatch input p) [
            | some e ↦ (made (refused e), s)
            | none ↦
                settle
                  (save (record p { status = confirmed; confirmed_at = some now; updated_at = now })
                    s)
                  (λ q. accepted q)
          ]))
      else (made (refused (confirmation_refusal p.status)), s)
]

pub record EditInput : Type 0 where
  pub preview : String
  pub stdin : String
  pub artifact : ReasoningArtifact

-- The draft that takes the place of an edited proposal.
unfoldable pub revised : ExecutionProposal → EditInput → String → ℕ → Platform → ExecutionProposal
unfolding content_hash_of
revised p input id now env = record p {
  id = id;
  artifact_id = input.artifact.artifact_id;
  content_hash =
      content_hash_of env input.artifact.artifact_id input.artifact.content_hash input.preview
        p.command p.args input.stdin;
  preview = input.preview;
  stdin = input.stdin;
  status = draft;
  created_at = now;
  updated_at = now;
  confirmation_nonce = none;
  confirmed_at = none;
  dispatching_at = none;
  returned_at = none;
  failed_at = none;
  paused_at = none;
  cancelled_at = none;
  timed_out_at = none;
  failure_reason = none;
  result = none;
  supersedes_proposal_id = some p.id;
  superseded_by_proposal_id = none;
}

abbrev pub may_not_edit : ExecutionProposalStatus → Bool
may_not_edit returned = true
may_not_edit dispatching = true
may_not_edit _ = false

-- The old proposal is saved as cancelled, then with its successor, and then the successor is saved.
unfoldable pub edit : String → EditInput → ℕ → Store → Attempt ExecutionProposal × Store
unfolding save then_save revised
edit id input now s = elim (get id s.proposals) [
  | none ↦ (thrown ("proposal-not-found" ∷ []), s)
  | some p ↦
      if may_not_edit p.status
      then (thrown ("proposal-not-editable" ∷ []), s)
      else (let old : ExecutionProposal = record p {
        status = cancelled;
        cancelled_at = some now;
        updated_at = now;
      } in
          let r = save old s in
          let n = random_uuid r.1 in
          let new : ExecutionProposal = revised old input n.0 now s.platform in
          elim r.0 [
            | thrown es ↦ (thrown es, s)
            | made q ↦
                then_save (save (record old { superseded_by_proposal_id = some new.id }) n.1) new
          ])
]

unfoldable pub mark_dispatching : String → ℕ → Store → Attempt ExecutionProposal × Store
unfolding update
mark_dispatching id now =
    update id (λ status. status == confirmed) "proposal-not-confirmed"
      (λ p. record p { status = dispatching; dispatching_at = some now; updated_at = now })

-- From every status.
unfoldable pub mark_returned : String → RunResult → ℕ → Store → Attempt ExecutionProposal × Store
unfolding update
mark_returned id result now =
    update id (λ status. true) ""
      (λ p. record p {
        status = returned;
        returned_at = some now;
        updated_at = now;
        result = some result;
      })

unfoldable pub mark_failed : String → String → ℕ → Store → Attempt ExecutionProposal × Store
unfolding update
mark_failed id reason now =
    update id (λ status. true) ""
      (λ p. record p {
        status = failed;
        failed_at = some now;
        failure_reason = some reason;
        updated_at = now;
      })

abbrev pub may_pause : ExecutionProposalStatus → Bool
may_pause draft = true
may_pause awaiting_confirmation = true
may_pause confirmed = true
may_pause dispatching = true
may_pause _ = false

unfoldable pub pause : String → String → ℕ → Store → Attempt ExecutionProposal × Store
unfolding update
pause id reason now = update id may_pause "proposal-not-pausable" (λ p. record p {
  status = paused;
  paused_at = some now;
  failure_reason = some reason;
  updated_at = now;
})

-- To `confirmed` when it was confirmed before, else to `awaiting-confirmation`.
abbrev pub resumed : Option ℕ → ExecutionProposalStatus
resumed none = awaiting_confirmation
resumed (some at) = confirmed

unfoldable pub resume : String → ℕ → Store → Attempt ExecutionProposal × Store
unfolding update
resume id now =
    update id (λ status. status == paused) "proposal-not-paused"
      (λ p. record p { status = resumed p.confirmed_at; failure_reason = none; updated_at = now })

abbrev pub may_cancel : ExecutionProposalStatus → Bool
may_cancel draft = true
may_cancel awaiting_confirmation = true
may_cancel confirmed = true
may_cancel paused = true
may_cancel _ = false

unfoldable pub cancel : String → ℕ → Store → Attempt ExecutionProposal × Store
unfolding update
cancel id now =
    update id may_cancel "proposal-not-cancellable"
      (λ p. record p { status = cancelled; cancelled_at = some now; updated_at = now })

unfoldable pub get_proposal : String → Store → Option ExecutionProposal
get_proposal id s = get id s.proposals

unfoldable pub export_all : Store → List ExecutionProposal
export_all s = values s.proposals
