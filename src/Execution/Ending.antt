-- ===== src/Execution/Ending.antt =====
-- What becomes of a proposal whose command was run.
use cli_bridge.Common.{
  Attempt, made, ℕ, ◌≡◌, refl, sym, ap, ◌∙◌, Bool, true, false, String, Option, none, some, [],
  nat_eq, string_eq, or_else, get, get-set_self,
}
use cli_bridge.Proposals.Model.{
  confirmed, dispatching, returned, execution_proposal_status_eq, artifact_kind_eq, RunResult,
  ExecutionProposal, validate_execution_proposal,
}
use cli_bridge.Proposals.Store.{Store}
use cli_bridge.Proposals.Operations.{mark_returned, get_proposal}
use cli_bridge.Execution.Dispatcher.{
  DispatchInput, DispatchResult, CommandRun, runs, begin_dispatch, finish_dispatch,
}
use cli_bridge.Goals.Model.{plan_status_eq}
use cli_bridge.Execution.Dispatcher.{Ending, succeeded, broke, finished, gave_up, finish_dispatch}
use cli_bridge.Execution.Handing.{begin_dispatch-Hands, Hands}
use cli_bridge.Proposals.Model.{
  draft, awaiting_confirmation, confirmed, dispatching, ExecutionProposalStatus,
}
use cli_bridge.Proposals.Operations.{may_pause, pause}
use cli_bridge.Proposals.Store.{update}
use cli_bridge.Proposals.Confirming.{proposal_id}
use cli_bridge.Common.{◌∷◌, set, IsKeyed, get-IsKeyed, unwrap, ◌⊎◌, inl, inr, Bool-cases, thrown}
use cli_bridge.Proposals.Again.{update_made, paused_proposal, dispatched_proposal, stored}

abbrev returned_proposal : RunResult → ℕ → ExecutionProposal → ExecutionProposal
returned_proposal result now p = record p {
  status = returned;
  returned_at = some now;
  updated_at = now;
  result = some result;
}

-- The answer, with the proposal that it shows, and the store that keeps it.
abbrev settled : Bool → Option String → ExecutionProposal → Store → Attempt DispatchResult × Store
settled ok reason p s =
    (made (record { ok = ok; failure_reason = reason; proposal = some p }), stored p s)

-- The states from which a proposal can be paused.
abbrev pub Pausable : ExecutionProposalStatus → Type 0
Pausable status =
    (status ≡ draft)
    ⊎ (status ≡ awaiting_confirmation)
    ⊎ (status ≡ confirmed)
    ⊎ (status ≡ dispatching)

-- What the end of a command does to the proposal as it stands by then.
abbrev pub EndsAs : Ending → ℕ → ExecutionProposal → Store → Attempt DispatchResult × Store → Type 0
EndsAs (succeeded result) now r u outcome =
    outcome ≡ settled true none (returned_proposal result now r) u
EndsAs (broke reason) now r u outcome =
    let why = or_else reason "execution-dispatch-failed" in
    (Pausable r.status × (outcome ≡ settled false (some why) (paused_proposal why now r) u))
    ⊎ ((¬ Pausable r.status) × (outcome ≡ (thrown ("proposal-not-pausable" ∷ []), u)))

may_pause-Pausable : (status : ExecutionProposalStatus) → may_pause status ≡ true → Pausable status
may_pause-Pausable draft e = inl refl
may_pause-Pausable awaiting_confirmation e = inr (inl refl)
may_pause-Pausable confirmed e = inr (inr (inl refl))
may_pause-Pausable dispatching e = inr (inr (inr refl))
may_pause-Pausable _ e = absurd (cc (e))

Pausable-may_pause : (status : ExecutionProposalStatus) → Pausable status → may_pause status ≡ true
Pausable-may_pause status (inl e) = ap may_pause e
Pausable-may_pause status (inr (inl e)) = ap may_pause e
Pausable-may_pause status (inr (inr (inl e))) = ap may_pause e
Pausable-may_pause status (inr (inr (inr e))) = ap may_pause e

mark_returned_made :
    (result : RunResult) (now : ℕ) (p : ExecutionProposal) (s : Store)
    → get p.id s.proposals ≡ some p
    → validate_execution_proposal p ≡ []
    → mark_returned p.id result now s
      ≡ (made (returned_proposal result now p), stored (returned_proposal result now p) s)
unfolding mark_returned validate_execution_proposal
mark_returned_made result now p s e v =
    update_made (λ status. true) "" (λ q. returned_proposal result now q) p s e refl v

pause_made_from :
    (reason : String) (now : ℕ) (p : ExecutionProposal) (s : Store)
    → get p.id s.proposals ≡ some p
    → may_pause p.status ≡ true
    → validate_execution_proposal p ≡ []
    → pause p.id reason now s
      ≡ (made (paused_proposal reason now p), stored (paused_proposal reason now p) s)
unfolding pause validate_execution_proposal
pause_made_from reason now p s e a v =
    update_made may_pause "proposal-not-pausable" (λ q. paused_proposal reason now q) p s e a v

pause_refused :
    (reason : String) (now : ℕ) (p : ExecutionProposal) (s : Store)
    → get p.id s.proposals ≡ some p
    → may_pause p.status ≡ false
    → pause p.id reason now s ≡ (thrown ("proposal-not-pausable" ∷ []), s)
unfolding pause update
pause_refused reason now p s e a = rw (e, a, pause, update) refl

finish_dispatch-EndsAs :
    (run : CommandRun) (ending : Ending) (now : ℕ) (r : ExecutionProposal) (u : Store)
    → run.proposal_id ≡ r.id
    → get r.id u.proposals ≡ some r
    → validate_execution_proposal r ≡ []
    → EndsAs ending now r u (finish_dispatch run ending now u)
unfolding finish_dispatch finished gave_up
finish_dispatch-EndsAs run (succeeded result) now r u i e v =
    rw (i, mark_returned_made result now r u e v, finished) refl
finish_dispatch-EndsAs run (broke reason) now r u i e v =
    let why = or_else reason "execution-dispatch-failed" in
    elim (Bool-cases (may_pause r.status)) [
      | inl a ↦
          inl
            (may_pause-Pausable r.status a, rw (i, pause_made_from why now r u e a v, gave_up) refl)
      | inr a ↦ inr (
        (λ able.
            absurd (
              let clash : true ≡ false = sym (Pausable-may_pause r.status able) ∙ a in cc (clash))),
        rw (i, pause_refused why now r u e a, gave_up) refl,
      )
    ]

-- A dispatch that has its command under way leaves the proposal named, which stood under its identifier
-- and was valid, dispatching. Whatever the store has become when the command ends, with a valid proposal
-- still under that identifier: a command that ends with a result leaves the proposal returned with it,
-- and the dispatch succeeds; one that fails leaves the proposal paused with the reason, and the dispatch
-- says that it failed, if the proposal is a draft, awaits confirmation, or is confirmed or dispatching;
-- else it throws that the proposal cannot be paused, and the store is as it was.
pub begin_dispatch-finish_dispatch :
    (input : DispatchInput) (run : CommandRun) (ending : Ending) (now later : ℕ)
    (p r : ExecutionProposal) (s t u : Store)
    → IsKeyed proposal_id s.proposals
    → get input.proposal_id s.proposals ≡ some p
    → begin_dispatch input now s ≡ (runs run, t)
    → get p.id u.proposals ≡ some r
    → r.id ≡ p.id
    → validate_execution_proposal r ≡ []
    → (get p.id t.proposals ≡ some (dispatched_proposal now p))
      × EndsAs ending later r u (finish_dispatch run ending later u)
unfolding get_proposal
begin_dispatch-finish_dispatch input run ending now later p r s t u keyed there e held own v =
    let handed = begin_dispatch-Hands input now s keyed in ends (rw (e) at handed)
  where
    ends :
        Hands input now s (runs run, t)
        → (get p.id t.proposals ≡ some (dispatched_proposal now p))
          × EndsAs ending later r u (finish_dispatch run ending later u)
    ends (q, (matches, _, _), ran, fits, (stands, written)) =
        let (there_too, _, _, _, _, _) = matches in
        let same : q ≡ p = unwrap (sym there_too ∙ there) in
        let name : run.proposal_id ≡ p.id =
          ap (λ (x : CommandRun). x.proposal_id) ran
          ∙ sym (get-IsKeyed proposal_id input.proposal_id p s.proposals keyed there) in
        (
          ap (λ (x : Store). get p.id x.proposals) written
              ∙ ap
                  (λ (x : ExecutionProposal).
                    get p.id (set x.id (dispatched_proposal now x) s.proposals))
                  same
              ∙ get-set_self p.id (dispatched_proposal now p) s.proposals,
          finish_dispatch-EndsAs run ending later r u (name ∙ sym own)
              (ap (λ i. get i u.proposals) own ∙ held) v,
        )
