-- ===== src/Goals/Choosing.antt =====
-- The step that an `advance` runs, told without the orchestrator's own tests.
use cli_bridge.Common.{
  ℕ, suc, ◌≤◌, ◌<◌, ◌≡◌, refl, sym, ap, ◌∙◌, ◌⊎◌, inl, inr, true, false, String, Option, none, some,
  List, [], ◌∷◌, ◌++◌, ◌==◌, arith, nat_eq, string_eq, Bool-cases, List-cases, filter, find,
  includes, In, All, get,
}
use cli_bridge.Goals.Model.{
  GoalStatus, PlanStatus, StepStatus, StepKind, Tier, Goal, PlanStep, Plan, goal_status_eq,
  plan_status_eq, step_status_eq, tier_eq,
}
use cli_bridge.Goals.Store.{get_plan_by_goal}
use cli_bridge.Goals.Steps.{is_ready, get_goal}
use cli_bridge.Goals.Orchestrator.{
  Orchestrator, AdvanceResult, step_completed, goal_refusal, is_failed, needs_gate, goes_on,
}
use cli_bridge.Goals.Advances.{Tells, MayRun, Stands}
use cli_bridge.Goals.Changing.{is_runnable_cases}
use cli_bridge.Goals.Runs.{Advanced}
use cli_bridge.Goals.Starting.{MayStart, status_of}
use mathlib.Core.Path.{subst}

abbrev pub IsReady : PlanStep → Type 0
IsReady x = (x.status ≡ StepStatus.pending) ⊎ (x.status ≡ StepStatus.gated_approved)

-- The first of the ready steps with the least index, which may start, in a plan that goes on, without a
-- failed step, within the tiers that the plan permits.
abbrev pub IsNext : Plan → PlanStep → Type 0
IsNext plan next =
    ((plan.status ≡ PlanStatus.approved) ⊎ (plan.status ≡ PlanStatus.executing))
    × All (λ (y : PlanStep). ¬ (y.status ≡ StepStatus.failed)) plan.steps
    × MayStart next
    × In next.tier plan.permitted_tiers
    × (before : List PlanStep) × (after : List PlanStep) × (plan.steps ≡ before ++ next ∷ after)
    × All (λ (y : PlanStep). IsReady y → next.index < y.index) before
    × All (λ (y : PlanStep). IsReady y → next.index ≤ y.index) after

-- An advance that runs a step, and counts it.
abbrev pub RunsNext : String → Orchestrator → AdvanceResult × Orchestrator → Type 0
RunsNext goal_id o (result, o') =
    (goal : Goal) × (plan : Plan) × (next : PlanStep) × (get goal_id o.store.goals ≡ some goal)
    × ((goal.status ≡ GoalStatus.approved) ⊎ (goal.status ≡ GoalStatus.executing))
    × (get_plan_by_goal goal_id o.store ≡ some plan)
    × IsNext plan next
    × Tells next result
    × (o.steps_run < o.step_ceiling)
    × (o'.steps_run ≡ suc o.steps_run)
    × (o'.step_ceiling ≡ o.step_ceiling)

-- An advance that runs none.
abbrev pub RunsNone : Orchestrator → AdvanceResult × Orchestrator → Type 0
RunsNone o (result, o') =
    ((id : String) (kind : StepKind) (index : ℕ) (output : Option String)
      → ¬ (result ≡ step_completed id kind index output))
    × (o'.steps_run ≡ o.steps_run)
    × (o'.step_ceiling ≡ o.step_ceiling)

IsReady-is_ready : (x : PlanStep) → IsReady x → is_ready x ≡ true
IsReady-is_ready x (inl e) = rw e refl
IsReady-is_ready x (inr e) = rw e refl

is_ready-MayStart : (x : PlanStep) → is_ready x ≡ true → needs_gate x ≡ false → MayStart x
is_ready-MayStart x r g = elim (Bool-cases (x.status == StepStatus.pending)) [
  | inl p ↦ inl (status_of x StepStatus.pending p, ground (arith, g, p))
  | inr p ↦ inr (status_of x StepStatus.gated_approved (rw p at r))
]

goal_refusal-none :
    (status : GoalStatus)
    → goal_refusal status ≡ none
    → (status ≡ GoalStatus.approved) ⊎ (status ≡ GoalStatus.executing)
goal_refusal-none GoalStatus.approved e = inl refl
goal_refusal-none GoalStatus.executing e = inr refl
goal_refusal-none GoalStatus.cancelled e = absurd (cc (e))
goal_refusal-none GoalStatus.done e = absurd (cc (e))
goal_refusal-none GoalStatus.failed e = absurd (cc (e))
goal_refusal-none GoalStatus.draft e = absurd (cc (e))
goal_refusal-none GoalStatus.planned e = absurd (cc (e))
goal_refusal-none GoalStatus.paused e = absurd (cc (e))

find-not_failed :
    (steps : List PlanStep)
    → find is_failed steps ≡ none
    → All (λ (y : PlanStep). ¬ (y.status ≡ StepStatus.failed)) steps
find-not_failed [] e = tt
find-not_failed (x ∷ xs) e = elim (Bool-cases (is_failed x)) [
  | inl h ↦ absurd (let clash : some x ≡ none = rw h at e in cc (clash))
  | inr h ↦ (
    (λ f. absurd (
        let clash : true ≡ false =
          sym ((step_status_eq.same_iff x.status StepStatus.failed).1 f) ∙ h in
        cc (clash))),
    find-not_failed xs (rw h at e),
  )
]

includes-In : (t : Tier) (ts : List Tier) → includes t ts ≡ true → In t ts
includes-In t [] e = absurd (cc (e))
includes-In t (u ∷ us) e = elim (Bool-cases (u == t)) [
  | inl h ↦ inl ((tier_eq.same_iff u t).0 h)
  | inr h ↦ inr (includes-In t us (rw h at e))
]

-- What holds of the ready steps of a list holds of its steps, if they are ready.
filter-IsReady :
    (P : PlanStep → Type 0) (xs : List PlanStep)
    → All P (filter is_ready xs)
    → All (λ (y : PlanStep). IsReady y → P y) xs
filter-IsReady P [] h = tt
filter-IsReady P (x ∷ xs) h = elim (Bool-cases (is_ready x)) [
  | inl r ↦
      let both : P x × All P (filter is_ready xs) = rw r at h in
      ((λ i. both.0), filter-IsReady P xs both.1)
  | inr r ↦ (
    (λ i. absurd (let clash : true ≡ false = sym (IsReady-is_ready x i) ∙ r in cc (clash))),
    filter-IsReady P xs (rw r at h),
  )
]

filter-split :
    (xs before : List PlanStep) (x : PlanStep) (after : List PlanStep)
    → filter is_ready xs ≡ before ++ x ∷ after
    → (front : List PlanStep) × (back : List PlanStep) × (xs ≡ front ++ x ∷ back)
      × (is_ready x ≡ true)
      × (filter is_ready front ≡ before)
      × (filter is_ready back ≡ after)
filter-split [] [] x after e = absurd (ground arith)
filter-split [] (b ∷ bs) x after e = absurd (ground arith)
filter-split (y ∷ ys) before x after e = elim (Bool-cases (is_ready y)) [
  | inr r ↦
      let (front, back, there, ready, f, g) = filter-split ys before x after (rw r at e) in
      (y ∷ front, back, ap (λ w. y ∷ w) there, ready, rw r f, g)
  | inl r ↦
      let e' : y ∷ filter is_ready ys ≡ before ++ x ∷ after = rw r at e in
      elim (List-cases before) [
        | inl none_before ↦
            let e'' : y ∷ filter is_ready ys ≡ x ∷ after =
              e' ∙ ap (λ b. b ++ x ∷ after) none_before in
            let same : y ≡ x = ground (arith, e'') in
            (
              [],
              ys,
              ap (λ w. w ∷ ys) same,
              ap is_ready (sym same) ∙ r,
              sym none_before,
              ground (arith, e''),
            )
        | inr (b, bs, some_before) ↦
            let e'' : y ∷ filter is_ready ys ≡ b ∷ (bs ++ x ∷ after) =
              e' ∙ ap (λ w. w ++ x ∷ after) some_before in
            let same : y ≡ b = ground (arith, e'') in
            let rest : filter is_ready ys ≡ bs ++ x ∷ after = ground (arith, e'') in
            let (front, back, there, ready, f, g) = filter-split ys bs x after rest in
            (
              y ∷ front,
              back,
              ap (λ w. y ∷ w) there,
              ready,
              rw r (ap (λ w. y ∷ w) f ∙ ap (λ w. w ∷ bs) same ∙ sym some_before),
              g,
            )
      ]
]

MayRun-IsNext : (plan : Plan) (next : PlanStep) → MayRun plan next → IsNext plan next
MayRun-IsNext plan next (runnable, unfailed, first, tier, gate) =
    let (before, after, there, less, least) = first in
    let (front, back, stands, ready, f, g) = filter-split plan.steps before next after there in
    (
      is_runnable_cases plan.status runnable,
      find-not_failed plan.steps unfailed,
      is_ready-MayStart next ready gate,
      includes-In next.tier plan.permitted_tiers tier,
      front,
      back,
      stands,
      filter-IsReady (λ (y : PlanStep). next.index < y.index) front
          (subst (All (λ (y : PlanStep). next.index < y.index)) (sym f) less),
      filter-IsReady (λ (y : PlanStep). next.index ≤ y.index) back
          (subst (All (λ (y : PlanStep). next.index ≤ y.index)) (sym g) least),
    )

Stands-RunsNone : (o : Orchestrator) (r : AdvanceResult × Orchestrator) → Stands o r → RunsNone o r
Stands-RunsNone o r (stops, count, ceiling) = (
  (λ id kind index output e.
      absurd (let clash : true ≡ false = sym (ap goes_on e) ∙ stops in cc (clash))),
  count,
  ceiling,
)

pub Advanced-RunsNext :
    (goal_id : String) (o : Orchestrator) (r : AdvanceResult × Orchestrator)
    → Advanced goal_id o r
    → RunsNone o r ⊎ RunsNext goal_id o r
unfolding get_goal
Advanced-RunsNext goal_id o r (inl stands) = inl (Stands-RunsNone o r stands)
Advanced-RunsNext goal_id o r
      (inr ((goal, there, allowed), (plan, next, p, may, tells, below, count, ceiling))) =
    inr (
      goal,
      plan,
      next,
      there,
      goal_refusal-none goal.status allowed,
      p,
      MayRun-IsNext plan next may,
      tells,
      below,
      count,
      ceiling,
    )
