-- ===== src/Goals/Carrying.antt =====
-- What running a step of the orchestrator, or gating it, leaves in the store.
use cli_bridge.Common.{
  ℕ, suc, ◌≡◌, refl, sym, ap, ◌∙◌, inl, inr, true, false, String, none, some, nat_eq, string_eq,
  Option-cases, unwrap, find, All, IsKeyed, truthy,
}
use cli_bridge.Goals.Model.{
  StepStatus, PlanStep, Plan, goal_status_eq, plan_status_eq, step_status_eq, tier_eq,
}
use cli_bridge.Goals.Store.{Store, get_plan_by_goal}
use cli_bridge.Goals.Steps.{
  is_runnable, has_id, is_refused, commit_step, transition_step, start, block, complete, fail,
  mark_step_running, block_step_for_gate, complete_step, fail_step,
}
use cli_bridge.Goals.Orchestrator.{
  Orchestrator, AdvanceStepOptions, AdvanceResult, is_failed, gate_step, finish_step, run_step,
}
use cli_bridge.Goals.Transitions.{Transition, transition_step_cases}
use cli_bridge.Goals.Changing.{plan_key, Replaces, Changes, Splits-find}
use cli_bridge.Goals.Committing.{commit_step-IsKeyed, commit_step-Changes}
use cli_bridge.Goals.Finishing.{Transition-Changes}
use cli_bridge.Goals.Starting.{
  MayStart, Effect, start_cases, block_cases, find-none-some, All-middle,
}
use mathlib.Core.Path.{subst}

-- While a step runs, its plan goes on.
running-is_runnable :
    (goal_id step_id : String) (x y : PlanStep) (now : ℕ) (s m : Store)
    (c : Changes goal_id step_id x y now s m)
    → y.status ≡ StepStatus.running
    → is_runnable (c.0).after.status ≡ true
running-is_runnable goal_id step_id x y now s m (r, b, u, settled) e = elim settled [
  | inl (alls, d) ↦ absurd (
      let done_y : y.status ≡ StepStatus.done =
        All-middle (λ (z : PlanStep). z.status ≡ StepStatus.done) r.front y r.back
          (subst (All (λ (z : PlanStep). z.status ≡ StepStatus.done)) r.steps alls) in
      let clash : StepStatus.running ≡ StepStatus.done = sym e ∙ done_y in cc (clash))
  | inr (n, d) ↦ ap is_runnable d
]

transition_step_carried :
    (goal_id step_id : String) (now : ℕ) (mutate : PlanStep → PlanStep) (plan : Plan) (y : PlanStep)
    (m : Store)
    → get_plan_by_goal goal_id m ≡ some plan
    → is_runnable plan.status ≡ true
    → find (has_id step_id) plan.steps ≡ some y
    → is_refused y (mutate y) ≡ false
    → transition_step goal_id step_id now mutate m
      ≡ some (mutate y, commit_step goal_id plan step_id mutate now m)
unfolding transition_step
transition_step_carried goal_id step_id now mutate plan y m e r f n =
    rw (e, r, f, n, transition_step) refl

-- The end of a step that has started, from the store before it started.
finish_step-Effect :
    (goal_id : String) (options : AdvanceStepOptions) (clock : ℕ → ℕ) (next : PlanStep)
    (x : PlanStep) (s : Store) (o : Orchestrator)
    → MayStart x
    → Changes goal_id next.id x (record x { status = StepStatus.running }) (clock 0) s o.store
    → IsKeyed plan_key o.store.plans
    → (let r : AdvanceResult × Orchestrator = finish_step goal_id options clock next o in
        Effect goal_id options clock s r.0 r.1.store)
unfolding finish_step fail_step complete_step complete fail
finish_step-Effect goal_id options clock next x s o may c k =
    let y : PlanStep = record x { status = StepStatus.running } in
    let r : Replaces goal_id next.id x y s o.store = c.0 in
    let on : is_runnable r.after.status ≡ true =
      running-is_runnable goal_id next.id x y (clock 0) s o.store c refl in
    let picked : find (has_id next.id) r.after.steps ≡ some y =
      ap (find (has_id next.id)) r.steps
      ∙ Splits-find next.id r.front y r.back r.split.1 r.split.2 in
    let from : is_runnable r.before.status ≡ true = elim c.1 [
      | inl e ↦ ap is_runnable e
      | inr e ↦ ap is_runnable e
    ] in
    elim (Option-cases (truthy options.simulate_failure)) [
      | inr (reason, e) ↦
          let carried =
            transition_step_carried goal_id next.id (clock 1) (fail reason) r.after y o.store r.left
              on picked refl in
          rw (e, carried, finish_step)
            (inl (
              x,
              may,
              e,
              commit_step-Changes goal_id next.id x y (fail reason) (clock 1) s o.store r from on
                  r.split.1 k,
            ))
      | inl e ↦
          let carried =
            transition_step_carried goal_id next.id (clock 1) (complete options.output) r.after y
              o.store r.left on picked refl in
          rw (e, carried, finish_step)
            (
              x,
              may,
              e,
              refl,
              commit_step-Changes goal_id next.id x y (complete options.output) (clock 1) s o.store
                  r from on r.split.1 k,
            )
    ]

-- The step with the identifier, in a plan without a failed step.
Transition-not_failed :
    (goal_id step_id : String) (now : ℕ) (mutate : PlanStep → PlanStep) (plan : Plan) (s : Store)
    (r : Transition goal_id step_id now mutate s)
    → get_plan_by_goal goal_id s ≡ some plan
    → find is_failed plan.steps ≡ none
    → is_failed r.before ≡ false
Transition-not_failed goal_id step_id now mutate plan s r p n =
    let same : r.plan ≡ plan = unwrap (sym r.found ∙ p) in
    find-none-some is_failed (has_id step_id) plan.steps r.before n
      (ap (λ (q : Plan). find (has_id step_id) q.steps) (sym same) ∙ r.picked)

pub run_step-Effect :
    (goal_id : String) (options : AdvanceStepOptions) (clock : ℕ → ℕ) (plan : Plan)
    (next : PlanStep) (o : Orchestrator)
    → IsKeyed plan_key o.store.plans
    → get_plan_by_goal goal_id o.store ≡ some plan
    → find is_failed plan.steps ≡ none
    → (let r : AdvanceResult × Orchestrator = run_step goal_id options clock next o in
        Effect goal_id options clock o.store r.0 r.1.store)
unfolding run_step mark_step_running
run_step-Effect goal_id options clock plan next o k p n =
    elim (transition_step_cases goal_id next.id (clock 0) start o.store) [
      | inl e ↦ rw (e, run_step) refl
      | inr r ↦
          let failed = Transition-not_failed goal_id next.id (clock 0) start plan o.store r p n in
          let (may, same) = start_cases r.before failed r.moves in
          let m : Store = commit_step goal_id r.plan next.id start (clock 0) o.store in
          let changes : Changes goal_id next.id r.before
              (record r.before { status = StepStatus.running }) (clock 0) o.store m =
            subst (λ (y : PlanStep). Changes goal_id next.id r.before y (clock 0) o.store m) same
              (Transition-Changes goal_id next.id (clock 0) start o.store r k) in
          rw (r.carried, run_step)
            (finish_step-Effect goal_id options clock next r.before o.store
              (record o { store = m; steps_run = suc o.steps_run }) may changes
              (commit_step-IsKeyed goal_id r.plan next.id start (clock 0) o.store k))
    ]

pub gate_step-Effect :
    (goal_id : String) (options : AdvanceStepOptions) (clock : ℕ → ℕ) (plan : Plan)
    (next : PlanStep) (o : Orchestrator)
    → IsKeyed plan_key o.store.plans
    → get_plan_by_goal goal_id o.store ≡ some plan
    → find is_failed plan.steps ≡ none
    → (let r : AdvanceResult × Orchestrator = gate_step goal_id clock next o in
        Effect goal_id options clock o.store r.0 r.1.store)
unfolding gate_step block_step_for_gate
gate_step-Effect goal_id options clock plan next o k p n =
    elim (transition_step_cases goal_id next.id (clock 0) block o.store) [
      | inl e ↦ rw (e, gate_step) refl
      | inr r ↦
          let failed = Transition-not_failed goal_id next.id (clock 0) block plan o.store r p n in
          let (pending, gated, same) = block_cases r.before failed r.moves in
          let m : Store = commit_step goal_id r.plan next.id block (clock 0) o.store in
          let x : PlanStep = r.before in
          let y : PlanStep = record x { status = StepStatus.blocked_needs_gate } in
          let carried : transition_step goal_id next.id (clock 0) block o.store ≡ some (y, m) =
            r.carried ∙ ap (λ (w : PlanStep). some (w, m)) same in
          let changes : Changes goal_id next.id x y (clock 0) o.store m =
            subst (λ (w : PlanStep). Changes goal_id next.id x w (clock 0) o.store m) same
              (Transition-Changes goal_id next.id (clock 0) block o.store r k) in
          rw (carried, gate_step)
            (
              x,
              refl,
              refl,
              pending,
              gated,
              subst (λ (id : String). Changes goal_id id x y (clock 0) o.store m)
                  (sym changes.0.split.1) changes,
            )
    ]
