-- ===== src/Goals/Runs.antt =====
-- `advance` and `runAll` of the orchestrator.
use cli_bridge.Common.{
  ℕ, zero, suc, ◌+◌, ◌*◌, ◌≤◌, ◌<◌, ◌≡◌, refl, ap, ◌⊎◌, inl, inr, true, false, String, none, some,
  List, [], ◌∷◌, arith, nat_eq, string_eq, Bool-cases, Option-cases, length,
}
use cli_bridge.Goals.Model.{
  GoalStatus, PlanStatus, Goal, Plan, goal_status_eq, plan_status_eq, step_status_eq, tier_eq,
}
use cli_bridge.Goals.Store.{get_plan_by_goal}
use cli_bridge.Goals.Steps.{is_runnable, get_goal}
use cli_bridge.Goals.Orchestrator.{
  Orchestrator, AdvanceStepOptions, AdvanceResult, goal_refusal, plan_refusal, advance_plan,
  advance, goes_on, run_loop, run_all,
}
use cli_bridge.Goals.Advances.{Runs, Stands, advance_plan-Outcome}

goal_refusal-stops :
    (status : GoalStatus) (r : AdvanceResult) → goal_refusal status ≡ some r → goes_on r ≡ false
goal_refusal-stops status r e = ground (arith, ap goes_on)

plan_refusal-stops :
    (status : PlanStatus) (r : AdvanceResult) → plan_refusal status ≡ some r → goes_on r ≡ false
plan_refusal-stops status r e = ground (arith, ap goes_on)

plan_refusal-runnable :
    (status : PlanStatus) → plan_refusal status ≡ none → is_runnable status ≡ true
plan_refusal-runnable status e = ground arith

-- The goal is there and its status allows an advance.
abbrev pub Allows : String → Orchestrator → Type 0
Allows goal_id o =
    (goal : Goal) × (get_goal goal_id o.store ≡ some goal) × (goal_refusal goal.status ≡ none)

abbrev pub Advanced : String → Orchestrator → AdvanceResult × Orchestrator → Type 0
Advanced goal_id o r = Stands o r ⊎ (Allows goal_id o × Runs goal_id o r)

advance_allowed :
    (goal_id : String) (options : AdvanceStepOptions) (clock : ℕ → ℕ) (plan : Plan)
    (o : Orchestrator)
    → Allows goal_id o
    → get_plan_by_goal goal_id o.store ≡ some plan
    → is_runnable plan.status ≡ true
    → Advanced goal_id o (advance_plan goal_id options clock plan o)
advance_allowed goal_id options clock plan o a p r =
    elim (advance_plan-Outcome goal_id options clock plan o p r) [
      | inl stands ↦ inl stands
      | inr runs ↦ inr (a, runs)
    ]

advance_to_plan :
    (goal_id : String) (options : AdvanceStepOptions) (clock : ℕ → ℕ) (goal : Goal) (plan : Plan)
    (o : Orchestrator)
    → get_goal goal_id o.store ≡ some goal
    → goal_refusal goal.status ≡ none
    → get_plan_by_goal goal_id o.store ≡ some plan
    → plan_refusal plan.status ≡ none
    → advance goal_id options clock o ≡ advance_plan goal_id options clock plan o
unfolding advance
advance_to_plan goal_id options clock goal plan o e f p h = rw (e, f, p, h, advance) refl

-- An advance either runs no step, keeps the count of steps run, and its result is not
-- step-completed; or it runs one step: then the goal's and the plan's status allow it, no step of the
-- plan has failed, the step is the first of those with the least index among the pending and
-- gate-approved steps, its tier is one the plan permits, it is no pending step that changes state, the
-- count was below the ceiling and is one higher now, and the result names that step.
pub advance-Advanced :
    (goal_id : String) (options : AdvanceStepOptions) (clock : ℕ → ℕ) (o : Orchestrator)
    → Advanced goal_id o (advance goal_id options clock o)
unfolding advance
advance-Advanced goal_id options clock o = elim (Option-cases (get_goal goal_id o.store)) [
  | inl e ↦ inl (rw (e, advance) (refl, refl, refl))
  | inr (goal, e) ↦ elim (Option-cases (goal_refusal goal.status)) [
    | inr (r, f) ↦ inl (rw (e, f, advance) (goal_refusal-stops goal.status r f, refl, refl))
    | inl f ↦ elim (Option-cases (get_plan_by_goal goal_id o.store)) [
      | inl p ↦ inl (rw (e, f, p, advance) (refl, refl, refl))
      | inr (plan, p) ↦ elim (Option-cases (plan_refusal plan.status)) [
        | inr (r, h) ↦
            inl (rw (e, f, p, h, advance) (plan_refusal-stops plan.status r h, refl, refl))
        | inl h ↦ rw (advance_to_plan goal_id options clock goal plan o e f p h) (
            advance_allowed goal_id options clock plan o (goal, e, f) p
              (plan_refusal-runnable plan.status h))
      ]
    ]
  ]
]

-- Every result but the last is a completed step, and the last is none.
abbrev pub Ends : List AdvanceResult → Type 0
Ends [] = ⊥
Ends (r ∷ []) = goes_on r ≡ false
Ends (r ∷ r' ∷ rs) = (goes_on r ≡ true) × Ends (r' ∷ rs)

Ends-cons :
    (r : AdvanceResult) (rs : List AdvanceResult) → goes_on r ≡ true → Ends rs → Ends (r ∷ rs)
Ends-cons r [] g h = absurd h
Ends-cons r (r' ∷ rs) g h = (g, h)

-- A trace within the ceiling, from an orchestrator to another.
abbrev pub Bounded : Orchestrator → List AdvanceResult × Orchestrator → Type 0
Bounded o (results, o') =
    Ends results
    × (length results + o.steps_run ≤ suc o.step_ceiling)
    × (o'.steps_run ≤ o.step_ceiling)
    × (o.steps_run ≤ o'.steps_run)

run_loop-Bounded :
    (fuel : ℕ) (goal_id : String) (options : AdvanceStepOptions) (clock : ℕ → ℕ → ℕ) (i : ℕ)
    (o : Orchestrator)
    → 0 < fuel
    → o.step_ceiling < fuel + o.steps_run
    → o.steps_run ≤ o.step_ceiling
    → Bounded o (run_loop fuel goal_id options clock i o)
unfolding run_loop
run_loop-Bounded zero goal_id options clock i o pos enough below = absurd (omega arith)
run_loop-Bounded (suc fuel) goal_id options clock i o pos enough below =
    let r : AdvanceResult × Orchestrator = advance goal_id options (clock i) o in
    elim (advance-Advanced goal_id options (clock i) o) [
      | inl s ↦
          rw (s.0, run_loop)
            (s.0, omega (arith, below), omega (arith, s.1, below), omega (arith, s.1))
      | inr (a, (plan, next, p, m, t, less, count, same)) ↦ elim (Bool-cases (goes_on r.0)) [
        | inr g ↦ rw (g, run_loop) (g, omega (arith, below), omega arith, omega arith)
        | inl g ↦
            let ih =
              run_loop-Bounded fuel goal_id options clock (suc i) r.1 (omega arith) (omega arith)
                (omega arith) in
            rw (g, run_loop)
              (
                Ends-cons r.0 _ g ih.0,
                omega (arith, ih.1),
                omega (arith, ih.2),
                omega (arith, ih.3),
              )
      ]
    ]

-- With a ceiling above 0 and a count within it, `runAll` is never stopped by its own loop bound: all
-- its results but the last are completed steps and the last is not; they are at most one more than
-- the steps that the ceiling still allowed, and the count stays within the ceiling.
pub run_all-Bounded :
    (goal_id : String) (options : AdvanceStepOptions) (clock : ℕ → ℕ → ℕ) (o : Orchestrator)
    → 0 < o.step_ceiling
    → o.steps_run ≤ o.step_ceiling
    → Bounded o (run_all goal_id options clock o)
unfolding run_all
run_all-Bounded goal_id options clock o pos below =
    run_loop-Bounded (o.step_ceiling * 2) goal_id options clock 0 o (omega arith) (omega arith)
      below
