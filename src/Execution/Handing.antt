-- ===== src/Execution/Handing.antt =====
-- What `dispatchExecutionProposal` hands over, up to its await.
use cli_bridge.Common.{
  ℕ, ◌≡◌, refl, sym, ap, ◌∙◌, ◌⊎◌, inl, inr, true, String, some, nat_eq, string_eq, get,
}
use cli_bridge.Proposals.Model.{execution_proposal_status_eq, artifact_kind_eq, ExecutionProposal}
use cli_bridge.Proposals.Store.{Store}
use cli_bridge.Proposals.Operations.{pause, cancel, get_proposal}
use cli_bridge.Execution.Dispatcher.{DispatchInput, Begun, ended, runs, enqueued, begin_dispatch}
use cli_bridge.Execution.Dispatcher.{command_of}
use cli_bridge.Goals.Model.{plan_status_eq}
use cli_bridge.Common.{IsKeyed, get-IsKeyed}
use cli_bridge.Proposals.Model.{paused, cancelled}
use cli_bridge.Proposals.Confirming.{proposal_id}
use cli_bridge.Proposals.Operations.{may_pause, may_cancel}
use cli_bridge.Execution.Stepping.{Refuses, Steps, begin_dispatch-Steps, Cleared}
use cli_bridge.Execution.Fitting.{
  Fits, IsWorkbuddy, invocation_failure-Fits, is_workbuddy-IsWorkbuddy,
}
use cli_bridge.Execution.Writing.{Becomes, Dispatched, update_written, Marked-Dispatched}

-- The proposal that is named is paused, with a reason, or cancelled.
abbrev pub Stopped : DispatchInput → ℕ → Store → Store → Type 0
Stopped input now s t =
    (p : ExecutionProposal) × (get input.proposal_id s.proposals ≡ some p)
    × (((reason : String) × Becomes p
            (record p {
              status = paused;
              paused_at = some now;
              failure_reason = some reason;
              updated_at = now;
            })
            s t)
        ⊎ Becomes p (record p { status = cancelled; cancelled_at = some now; updated_at = now }) s
            t)

abbrev pub Hands : DispatchInput → ℕ → Store → Begun × Store → Type 0
Hands input now s (runs run, t) =
    (p : ExecutionProposal) × Cleared input s p
    × (run ≡ record {
      proposal_id = input.proposal_id;
      command = p.command;
      args = p.args;
      stdin = p.stdin;
    })
    × Fits input p.command p.args
    × Dispatched p now s t
Hands input now s (enqueued task result, t) =
    (p : ExecutionProposal) × Cleared input s p
    × (task ≡ record {
      endpoint_id = p.execution_endpoint_id;
      proposal_id = input.proposal_id;
      plan_id = p.plan_id;
      goal_id = p.goal_id;
      binding_hash = p.binding_hash;
      prompt = p.stdin;
      working_directory = input.working_directory;
      timeout_ms = input.timeout_ms;
    })
    × IsWorkbuddy input
    × (result.ok ≡ true)
    × Dispatched p now s t
Hands input now s (ended result, t) = Refuses result × ((t ≡ s) ⊎ Stopped input now s t)

at_own_id :
    (input : DispatchInput) (s : Store) (p : ExecutionProposal)
    → IsKeyed proposal_id s.proposals
    → get_proposal input.proposal_id s ≡ some p
    → get p.id s.proposals ≡ some p
unfolding get_proposal
at_own_id input s p keyed found =
    ap (λ i. get i s.proposals)
      (get-IsKeyed proposal_id input.proposal_id p s.proposals keyed found)
    ∙ found

Steps-Hands :
    (input : DispatchInput) (now : ℕ) (s : Store) (r : Begun × Store)
    → IsKeyed proposal_id s.proposals
    → Steps input now s r
    → Hands input now s r
unfolding get_proposal pause cancel
Steps-Hands input now s (runs run, t) keyed (p, clear, ran, fits, marked) =
    let ((found, ready, plan, goal, hash, endpoint), planned, provided) = clear in
    let own : p.id ≡ input.proposal_id =
      get-IsKeyed proposal_id input.proposal_id p s.proposals keyed found in
    let there = at_own_id input s p keyed found in
    (
      p,
      clear,
      ran ∙ ap (λ i. record (command_of p) { proposal_id = i }) own,
      invocation_failure-Fits input p.command p.args fits,
      Marked-Dispatched p now s t there marked,
    )
Steps-Hands input now s (enqueued task result, t) keyed (p, clear, same, workbuddy, fine, marked) =
    let ((found, ready, plan, goal, hash, endpoint), planned, provided) = clear in
    let own : p.id ≡ input.proposal_id =
      get-IsKeyed proposal_id input.proposal_id p s.proposals keyed found in
    let there = at_own_id input s p keyed found in
    (
      p,
      clear,
      same ∙ rw (own, sym endpoint, sym plan, sym goal, sym hash) refl,
      is_workbuddy-IsWorkbuddy input workbuddy,
      fine,
      Marked-Dispatched p now s t there marked,
    )
Steps-Hands input now s (ended result, t) keyed (no_ok, inl same) = (no_ok, inl same)
Steps-Hands input now s (ended result, t) keyed (no_ok, inr (inl (p, reason, found, e))) =
    let there = at_own_id input s p keyed found in
    elim (update_written may_pause "proposal-not-pausable"
      (λ x. record x {
        status = paused;
        paused_at = some now;
        failure_reason = some reason;
        updated_at = now;
      })
      p s there refl) [
        | inl kept ↦ (no_ok, inl (e ∙ kept))
        | inr (_, written) ↦ (no_ok, inr (p, found, inl (reason, (there, e ∙ written))))
      ]
Steps-Hands input now s (ended result, t) keyed (no_ok, inr (inr (p, found, e))) =
    let there = at_own_id input s p keyed found in
    elim (update_written may_cancel "proposal-not-cancellable"
      (λ x. record x { status = cancelled; cancelled_at = some now; updated_at = now }) p s there
      refl) [
        | inl kept ↦ (no_ok, inl (e ∙ kept))
        | inr (_, written) ↦ (no_ok, inr (p, found, inr (there, e ∙ written)))
      ]

-- Where each proposal stands under its own identifier, a dispatch runs a command or gives a task only for
-- the proposal named, which is confirmed, has the plan, goal, digest and endpoint of the binding, and is a
-- step of a plan that is neither paused nor cancelled, for that endpoint, with a provider that can execute
-- there. A command is that of the proposal, which is codex with the arguments of a read-only review for a
-- provider of kind codex, or claude with those of a review without tools for one of kind claude. A task is
-- for a provider of kind workbuddy, and carries the proposal's text, plan, goal, digest and endpoint. The
-- store is then as it was, but for the proposal, which is dispatching from that time. Else the call throws
-- or says that it failed, and the store is as it was, or the proposal named is paused or cancelled.
pub begin_dispatch-Hands :
    (input : DispatchInput) (now : ℕ) (s : Store)
    → IsKeyed proposal_id s.proposals
    → Hands input now s (begin_dispatch input now s)
begin_dispatch-Hands input now s keyed =
    Steps-Hands input now s (begin_dispatch input now s) keyed (begin_dispatch-Steps input now s)
