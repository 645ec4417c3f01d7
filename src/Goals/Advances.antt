-- ===== src/Goals/Advances.antt =====
-- One `advance` of the orchestrator.
use cli_bridge.Common.{
  ℕ, suc, ◌<◌, ◌≡◌, refl, ◌⊎◌, inl, inr, true, false, String, Option, none, some, arith, leb,
  nat_eq, string_eq, Bool-cases, Option-cases, filter, find, includes, head?-sort_by-IsFirst,
  IsFirst, truthy,
}
use cli_bridge.Goals.Model.{PlanStep, Plan, goal_status_eq, plan_status_eq, step_status_eq, tier_eq}
use cli_bridge.Goals.Store.{Store, get_plan_by_goal}
use cli_bridge.Goals.Steps.{
  is_runnable, is_ready, next_runnable_step, mark_step_running, block_step_for_gate, complete_step,
  fail_step,
}
use cli_bridge.Goals.Orchestrator.{
  Orchestrator, AdvanceStepOptions, AdvanceResult, step_completed, step_failed, is_failed,
  needs_gate, idle, gate_step, finish_step, run_step, attempt_step, advance_plan, goes_on,
}

-- The result tells that the step was run.
abbrev pub Tells : PlanStep → AdvanceResult → Type 0
Tells next result =
    ((output : Option String) × (result ≡ step_completed next.id next.kind next.index output))
    ⊎ ((reason : String) × (result ≡ step_failed next.id next.kind next.index reason))

-- What holds of a step of a plan that is run.
abbrev pub MayRun : Plan → PlanStep → Type 0
MayRun plan next =
    (is_runnable plan.status ≡ true)
    × (find is_failed plan.steps ≡ none)
    × IsFirst (λ (step : PlanStep). step.index) next (filter is_ready plan.steps)
    × (includes next.tier plan.permitted_tiers ≡ true)
    × (needs_gate next ≡ false)

-- An advance that runs a step.
abbrev pub Runs : String → Orchestrator → AdvanceResult × Orchestrator → Type 0
Runs goal_id o (result, o') =
    (plan : Plan) × (next : PlanStep) × (get_plan_by_goal goal_id o.store ≡ some plan)
    × MayRun plan next
    × Tells next result
    × (o.steps_run < o.step_ceiling)
    × (o'.steps_run ≡ suc o.steps_run)
    × (o'.step_ceiling ≡ o.step_ceiling)

-- An advance that runs no step.
abbrev pub Stands : Orchestrator → AdvanceResult × Orchestrator → Type 0
Stands o (result, o') =
    (goes_on result ≡ false) × (o'.steps_run ≡ o.steps_run) × (o'.step_ceiling ≡ o.step_ceiling)

gate_step-Stands :
    (goal_id : String) (clock : ℕ → ℕ) (next : PlanStep) (o : Orchestrator)
    → Stands o (gate_step goal_id clock next o)
unfolding gate_step
gate_step-Stands goal_id clock next o =
    elim (Option-cases (block_step_for_gate goal_id next.id (clock 0) o.store)) [
      | inl e ↦ rw (e, gate_step) (refl, refl, refl)
      | inr (r, e) ↦ rw (e, gate_step) (refl, refl, refl)
    ]

-- The end of a step that is running.
abbrev Finished : PlanStep → Orchestrator → AdvanceResult × Orchestrator → Type 0
Finished next o (result, o') =
    Tells next result × (o'.steps_run ≡ o.steps_run) × (o'.step_ceiling ≡ o.step_ceiling)

finish_step-Finished :
    (goal_id : String) (options : AdvanceStepOptions) (clock : ℕ → ℕ) (next : PlanStep)
    (o : Orchestrator)
    → Finished next o (finish_step goal_id options clock next o)
unfolding finish_step
finish_step-Finished goal_id options clock next o =
    elim (Option-cases (truthy options.simulate_failure)) [
      | inr (reason, e) ↦ elim (Option-cases (fail_step goal_id next.id reason (clock 1) o.store)) [
        | inl f ↦ rw (e, f, finish_step) (inr (reason, refl), refl, refl)
        | inr (r, f) ↦ rw (e, f, finish_step) (inr (_, refl), refl, refl)
      ]
      | inl e ↦
          elim (Option-cases (complete_step goal_id next.id options.output (clock 1) o.store)) [
            | inl f ↦ rw (e, f, finish_step) (inl (none, refl), refl, refl)
            | inr (r, f) ↦ rw (e, f, finish_step) (inl (_, refl), refl, refl)
          ]
    ]

-- The advances on a plan whose status allows them, from a step that may run.
abbrev pub Outcome : String → Orchestrator → AdvanceResult × Orchestrator → Type 0
Outcome goal_id o r = Stands o r ⊎ Runs goal_id o r

run_step-Outcome :
    (goal_id : String) (options : AdvanceStepOptions) (clock : ℕ → ℕ) (plan : Plan)
    (next : PlanStep) (o : Orchestrator)
    → get_plan_by_goal goal_id o.store ≡ some plan
    → MayRun plan next
    → o.steps_run < o.step_ceiling
    → Outcome goal_id o (run_step goal_id options clock next o)
unfolding run_step
run_step-Outcome goal_id options clock plan next o p m below =
    elim (Option-cases (mark_step_running goal_id next.id (clock 0) o.store)) [
      | inl e ↦ inl (rw (e, run_step) (refl, refl, refl))
      | inr ((t, s), e) ↦
          let f =
            finish_step-Finished goal_id options clock next
              (record o { store = s; steps_run = suc o.steps_run }) in
          inr (rw (e, run_step) (plan, next, p, m, f.0, below, f.1, f.2))
    ]

attempt_step-Outcome :
    (goal_id : String) (options : AdvanceStepOptions) (clock : ℕ → ℕ) (plan : Plan)
    (next : PlanStep) (o : Orchestrator)
    → get_plan_by_goal goal_id o.store ≡ some plan
    → is_runnable plan.status ≡ true
    → find is_failed plan.steps ≡ none
    → IsFirst (λ (step : PlanStep). step.index) next (filter is_ready plan.steps)
    → Outcome goal_id o (attempt_step goal_id options clock plan next o)
unfolding attempt_step
attempt_step-Outcome goal_id options clock plan next o p r n i =
    elim (Bool-cases (leb o.step_ceiling o.steps_run)) [
      | inl c ↦ inl (rw (c, attempt_step) (refl, refl, refl))
      | inr c ↦ elim (Bool-cases (includes next.tier plan.permitted_tiers)) [
        | inr t ↦ inl (rw (c, t, attempt_step) (refl, refl, refl))
        | inl t ↦ elim (Bool-cases (needs_gate next)) [
          | inl g ↦ inl (rw (c, t, g, attempt_step) (gate_step-Stands goal_id clock next o))
          | inr g ↦
              rw (c, t, g, attempt_step)
                (run_step-Outcome goal_id options clock plan next o p (r, n, i, t, g)
                  (ground arith))
        ]
      ]
    ]

next_runnable_step-IsFirst :
    (goal_id : String) (plan : Plan) (next : PlanStep) (s : Store)
    → get_plan_by_goal goal_id s ≡ some plan
    → is_runnable plan.status ≡ true
    → next_runnable_step goal_id s ≡ some next
    → IsFirst (λ (step : PlanStep). step.index) next (filter is_ready plan.steps)
unfolding next_runnable_step
next_runnable_step-IsFirst goal_id plan next s p r e =
    head?-sort_by-IsFirst _ next (filter is_ready plan.steps) (rw (p, r, next_runnable_step) at e)

idle-Stands : (plan : Plan) (o : Orchestrator) → Stands o (idle plan, o)
unfolding idle
idle-Stands plan o = (ground arith, refl, refl)

pub advance_plan-Outcome :
    (goal_id : String) (options : AdvanceStepOptions) (clock : ℕ → ℕ) (plan : Plan)
    (o : Orchestrator)
    → get_plan_by_goal goal_id o.store ≡ some plan
    → is_runnable plan.status ≡ true
    → Outcome goal_id o (advance_plan goal_id options clock plan o)
unfolding advance_plan
advance_plan-Outcome goal_id options clock plan o p r =
    elim (Option-cases (find is_failed plan.steps)) [
      | inr (t, f) ↦ inl (rw (f, advance_plan) (refl, refl, refl))
      | inl f ↦ elim (Option-cases (next_runnable_step goal_id o.store)) [
        | inl n ↦ inl (rw (f, n, advance_plan) (idle-Stands plan o))
        | inr (next, n) ↦
            rw (f, n, advance_plan)
              (attempt_step-Outcome goal_id options clock plan next o p r f
                (next_runnable_step-IsFirst goal_id plan next o.store p r n))
      ]
    ]
