-- ===== src/Execution/Stepping.antt =====
-- `dispatchExecutionProposal` up to its await, by its own checks and writes.
use cli_bridge.Common.{
  Attempt, made, thrown, ℕ, ◌≡◌, refl, sym, ap, ◌∙◌, ◌⊎◌, inl, inr, true, false, String, Option,
  none, some, List, [], ◌∷◌, arith, eq_iff, ◌==◌, nat_eq, string_eq, Bool-cases, Option-cases, find,
  All, get,
}
use cli_bridge.Proposals.Model.{
  confirmed, execution_proposal_status_eq, artifact_kind_eq, ExecutionProposal,
  validate_execution_proposal,
}
use cli_bridge.Proposals.Store.{Store, save, update, keep}
use cli_bridge.Proposals.Operations.{mark_dispatching, pause, cancel, get_proposal}
use cli_bridge.Execution.Capabilities.{Capability}
use cli_bridge.Execution.Dispatcher.{
  DispatchInput, DispatchResult, Refusal, tells, pauses, cancels, Test, first_refusal,
  dispatch_tests, invocation_failure, Begun, ended, runs, enqueued, give_up, refuse_with, hand_over,
  run_command, enqueue, start, begin_dispatch, targets, can_execute, provides,
}
use cli_bridge.Execution.Dispatcher.{enqueued_in, is_workbuddy, command_of, task_of}
use cli_bridge.Goals.Model.{PlanStatus, plan_status_eq, PlanStep}
use cli_bridge.Goals.Steps.{has_id}

first_refusal-passed :
    (tests : List Test) → first_refusal tests ≡ none → All (λ (t : Test). t.0 ≡ true) tests
unfolding first_refusal
first_refusal-passed [] e = tt
first_refusal-passed ((true, refusal) ∷ tests) e = (refl, first_refusal-passed tests e)
first_refusal-passed ((false, refusal) ∷ tests) e = absurd (cc)

-- The proposal that is named, confirmed, with the plan, goal, digest and endpoint of the binding.
abbrev pub Matches : DispatchInput → Store → ExecutionProposal → Type 0
Matches input s p =
    (get_proposal input.proposal_id s ≡ some p)
    × (p.status ≡ confirmed)
    × (p.plan_id ≡ input.binding.plan_id)
    × (p.goal_id ≡ input.binding.goal_id)
    × (p.binding_hash ≡ input.binding.binding_hash)
    × (p.execution_endpoint_id ≡ input.binding.execution_endpoint_id)

-- The plan goes on and has the step of the proposal, for the endpoint of the proposal.
abbrev pub Planned : DispatchInput → ExecutionProposal → Type 0
Planned input p =
    ((input.plan.status == PlanStatus.paused) ≡ false)
    × ((input.plan.status == PlanStatus.cancelled) ≡ false)
    × (step : PlanStep) × (find (has_id p.step_id) input.plan.steps ≡ some step)
    × (step.target_endpoint_id ≡ p.execution_endpoint_id)

-- The provider can execute, at the endpoint of the binding.
abbrev pub Provided : DispatchInput → Type 0
Provided input =
    (cap : Capability) × (input.provider_capability ≡ some cap)
    × (cap.can_execute ≡ true)
    × (cap.endpoint_id ≡ input.binding.execution_endpoint_id)

abbrev pub Cleared : DispatchInput → Store → ExecutionProposal → Type 0
Cleared input s p = Matches input s p × Planned input p × Provided input

-- A call that throws, or an answer that is not `ok`.
abbrev pub Refuses : Attempt DispatchResult → Type 0
Refuses (thrown es) = Unit
Refuses (made result) = result.ok ≡ false

-- The proposal was marked as being dispatched.
abbrev pub Marked : ExecutionProposal → ℕ → Store → Store → Type 0
Marked p now s t = (q : ExecutionProposal) × (mark_dispatching p.id now s ≡ (made q, t))

-- What is handed over, by the code's own checks and writes.
abbrev pub Steps : DispatchInput → ℕ → Store → Begun × Store → Type 0
Steps input now s (runs run, t) =
    (p : ExecutionProposal) × Cleared input s p
    × (run ≡ command_of p)
    × (invocation_failure input.provider_capability p.command p.args ≡ none)
    × Marked p now s t
Steps input now s (enqueued task result, t) =
    (p : ExecutionProposal) × Cleared input s p
    × (task ≡ task_of input p)
    × (is_workbuddy input.provider_capability ≡ true)
    × (result.ok ≡ true)
    × Marked p now s t
Steps input now s (ended result, t) =
    Refuses result
    × ((t ≡ s)
        ⊎ ((p : ExecutionProposal) × (reason : String) × (get_proposal input.proposal_id s ≡ some p)
            × (t ≡ (pause p.id reason now s).1))
        ⊎ ((p : ExecutionProposal) × (get_proposal input.proposal_id s ≡ some p)
            × (t ≡ (cancel p.id now s).1)))

target-found :
    (endpoint_id : String) (o : Option PlanStep)
    → targets endpoint_id o ≡ true
    → (step : PlanStep) × (o ≡ some step) × (step.target_endpoint_id ≡ endpoint_id)
target-found endpoint_id none e = absurd (cc)
target-found endpoint_id (some step) e =
    (step, refl, (eq_iff step.target_endpoint_id endpoint_id).0 e)

provider-found :
    (endpoint_id : String) (o : Option Capability)
    → can_execute o ≡ true
    → provides endpoint_id o ≡ true
    → (cap : Capability) × (o ≡ some cap)
      × (cap.can_execute ≡ true)
      × (cap.endpoint_id ≡ endpoint_id)
provider-found endpoint_id none a e = absurd (cc)
provider-found endpoint_id (some cap) a e = (cap, refl, a, (eq_iff cap.endpoint_id endpoint_id).0 e)

tests-Cleared :
    (input : DispatchInput) (p : ExecutionProposal) (s : Store)
    → get_proposal input.proposal_id s ≡ some p
    → first_refusal (dispatch_tests input p) ≡ none
    → Cleared input s p
tests-Cleared input p s there e =
    let (ready, (going, (wanted, (bound, (endpoint, (able, (provided, (target, _)))))))) =
      first_refusal-passed (dispatch_tests input p) e in
    let (step, found, aimed) = target-found p.execution_endpoint_id _ target in
    let provider = provider-found input.binding.execution_endpoint_id _ able provided in
    (
      (
        there,
        ground arith,
        ground (arith, bound, eq_iff p.plan_id input.binding.plan_id),
        ground (arith, bound, eq_iff p.goal_id input.binding.goal_id),
        ground (arith, bound, eq_iff p.binding_hash input.binding.binding_hash),
        (eq_iff p.execution_endpoint_id input.binding.execution_endpoint_id).0 endpoint,
      ),
      (ground (arith, going), ground (arith, wanted), step, found, aimed),
      provider,
    )

give_up-ended :
    (reason : String) (r : Attempt ExecutionProposal × Store)
    → (result : Attempt DispatchResult) × Refuses result × (give_up reason r ≡ (ended result, r.1))
unfolding give_up
give_up-ended reason (thrown es, s) = (_, tt, refl)
give_up-ended reason (made p, s) = (_, refl, refl)

refuse_with-Steps :
    (input : DispatchInput) (refusal : Refusal) (p : ExecutionProposal) (now : ℕ) (s : Store)
    → get_proposal input.proposal_id s ≡ some p
    → Steps input now s (refuse_with refusal p now s)
unfolding refuse_with give_up
refuse_with-Steps input (tells reason) p now s there = (refl, inl refl)
refuse_with-Steps input (pauses reason) p now s there =
    let (result, no_ok, e) = give_up-ended reason (pause p.id reason now s) in
    rw (e, refuse_with) (no_ok, inr (inl (p, reason, there, refl)))
refuse_with-Steps input (cancels reason) p now s there =
    let (result, no_ok, e) = give_up-ended reason (cancel p.id now s) in
    rw (e, refuse_with) (no_ok, inr (inr (p, there, refl)))

save_thrown :
    (p : ExecutionProposal) (s : Store) (es : List String)
    → (save p s).0 ≡ thrown es
    → (save p s).1 ≡ s
unfolding save
save_thrown p s es e = kept (validate_execution_proposal p) e
  where
    kept : (errors : List String) → (keep p s errors).0 ≡ thrown es → (keep p s errors).1 ≡ s
    kept [] f = absurd (cc)
    kept (x ∷ xs) f = refl

mark_dispatching_thrown :
    (id : String) (now : ℕ) (s : Store) (es : List String)
    → (mark_dispatching id now s).0 ≡ thrown es
    → (mark_dispatching id now s).1 ≡ s
unfolding mark_dispatching update
mark_dispatching_thrown id now s es e = elim (Option-cases (get id s.proposals)) [
  | inl f ↦ rw (f, update) refl
  | inr (p, f) ↦ elim (Bool-cases (p.status == confirmed)) [
    | inr g ↦ rw (f, g, update) refl
    | inl g ↦ rw (f, g, update) (save_thrown _ s es (rw (f, g, update) at e))
  ]
]

-- What a hand-over that follows `markDispatching` amounts to.
hand_over-cases :
    (next : Store → Begun) (p : ExecutionProposal) (now : ℕ) (s : Store)
    → ((result : Attempt DispatchResult) × Refuses result
        × (hand_over next (mark_dispatching p.id now s) ≡ (ended result, s)))
      ⊎ ((t : Store) × Marked p now s t
          × (hand_over next (mark_dispatching p.id now s) ≡ (next t, t)))
unfolding hand_over
hand_over-cases next p now s = split (mark_dispatching p.id now s) refl
  where
    split :
        (r : Attempt ExecutionProposal × Store)
        → mark_dispatching p.id now s ≡ r
        → ((result : Attempt DispatchResult) × Refuses result
            × (hand_over next (mark_dispatching p.id now s) ≡ (ended result, s)))
          ⊎ ((t : Store) × Marked p now s t
              × (hand_over next (mark_dispatching p.id now s) ≡ (next t, t)))
    split (thrown es, t) e =
        let same : t ≡ s =
          sym (ap (λ x. x.1) e) ∙ mark_dispatching_thrown p.id now s es (ap (λ x. x.0) e) in
        inl (thrown es, tt, rw (e, hand_over) (ap (λ x. (ended (thrown es), x)) same))
    split (made q, t) e = inr (t, (q, e), rw (e, hand_over) refl)

run_command-Steps :
    (input : DispatchInput) (p : ExecutionProposal) (now : ℕ) (s : Store)
    → Cleared input s p
    → Steps input now s (run_command input p now s)
unfolding run_command
run_command-Steps input p now s clear =
    elim (Option-cases (invocation_failure input.provider_capability p.command p.args)) [
      | inr (reason, e) ↦
          rw (e, run_command) (refuse_with-Steps input (pauses reason) p now s clear.0.0)
      | inl e ↦ elim (hand_over-cases (λ t. runs (command_of p)) p now s) [
        | inl (result, no_ok, f) ↦ rw (e, f, run_command) (no_ok, inl refl)
        | inr (t, marked, f) ↦ rw (e, f, run_command) (p, clear, refl, e, marked)
      ]
    ]

enqueue-Steps :
    (input : DispatchInput) (p : ExecutionProposal) (now : ℕ) (s : Store)
    → Cleared input s p
    → is_workbuddy input.provider_capability ≡ true
    → Steps input now s (enqueue input p now s)
unfolding enqueue
enqueue-Steps input p now s clear w = elim (Bool-cases input.workbuddy) [
  | inr e ↦
      rw (e, enqueue)
        (refuse_with-Steps input (pauses "workbuddy-adapter-not-configured") p now s clear.0.0)
  | inl e ↦ elim (hand_over-cases (enqueued_in input p) p now s) [
    | inl (result, no_ok, f) ↦ rw (e, f, enqueue) (no_ok, inl refl)
    | inr (t, marked, f) ↦ rw (e, f, enqueue) (p, clear, refl, w, refl, marked)
  ]
]

start-Steps :
    (input : DispatchInput) (p : ExecutionProposal) (now : ℕ) (s : Store)
    → get_proposal input.proposal_id s ≡ some p
    → Steps input now s (start input p now s)
unfolding start
start-Steps input p now s there = elim (Option-cases (first_refusal (dispatch_tests input p))) [
  | inr (refusal, e) ↦ rw (e, start) (refuse_with-Steps input refusal p now s there)
  | inl e ↦
      let clear = tests-Cleared input p s there e in
      elim (Bool-cases (is_workbuddy input.provider_capability)) [
        | inl w ↦ rw (e, w, start) (enqueue-Steps input p now s clear w)
        | inr w ↦ rw (e, w, start) (run_command-Steps input p now s clear)
      ]
]

pub begin_dispatch-Steps :
    (input : DispatchInput) (now : ℕ) (s : Store) → Steps input now s (begin_dispatch input now s)
unfolding begin_dispatch
begin_dispatch-Steps input now s = elim (Option-cases (get_proposal input.proposal_id s)) [
  | inl e ↦ rw (e, begin_dispatch) (refl, inl refl)
  | inr (p, e) ↦ rw (e, begin_dispatch) (start-Steps input p now s e)
]
