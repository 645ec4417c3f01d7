-- ===== src/Goals/Changing.antt =====
-- One step of a plan in the store before and after a transition.
use cli_bridge.Common.{
  ℕ, ◌≡◌, refl, sym, ap, ◌∙◌, ◌⊎◌, inl, inr, true, String, some, List, [], ◌∷◌, ◌++◌, arith, nat_eq,
  string_eq, eq_iff, Bool-cases, unwrap, find, All, get,
}
use cli_bridge.Goals.Model.{
  PlanStatus, StepStatus, PlanStep, Plan, goal_status_eq, plan_status_eq, step_status_eq, tier_eq,
}
use cli_bridge.Goals.Store.{Store, get_plan_by_goal}
use cli_bridge.Goals.Steps.{is_runnable, has_id, update_step}

abbrev pub plan_key : Plan → String
plan_key plan = plan.id

-- The first step of the list that has the identifier, with the steps around it.
abbrev pub Splits : String → List PlanStep → List PlanStep → PlanStep → List PlanStep → Type 0
Splits id steps front x back =
    (steps ≡ front ++ x ∷ back) × (x.id ≡ id) × All (λ (y : PlanStep). ¬ (y.id ≡ id)) front

-- In the plan of the goal, the first step with the identifier was `x` and is `y`; nothing else of the
-- plan but its status and its time of update changes, and no other plan.
pub record Replaces (goal_id step_id : String) (x y : PlanStep) (s t : Store) : Type 0 where
  pub before : Plan
  pub after : Plan
  pub front : List PlanStep
  pub back : List PlanStep
  pub found : get_plan_by_goal goal_id s ≡ some before
  pub split : Splits step_id before.steps front x back
  pub left : get_plan_by_goal goal_id t ≡ some after
  pub steps : after.steps ≡ front ++ y ∷ back
  pub kept :
      after
      ≡ record before { steps = after.steps; status = after.status; updated_at = after.updated_at }
  pub others : (j : String) → ¬ (j ≡ before.id) → get j t.plans ≡ get j s.plans

-- A plan is done when all of its steps are, and executing else.
abbrev pub Settled : Plan → Type 0
Settled plan =
    (All (λ (z : PlanStep). z.status ≡ StepStatus.done) plan.steps
      × (plan.status ≡ PlanStatus.done))
    ⊎ (¬ All (λ (z : PlanStep). z.status ≡ StepStatus.done) plan.steps
        × (plan.status ≡ PlanStatus.executing))

-- The step was replaced in a plan that was approved or executing, at the given time.
abbrev pub Changes : String → String → PlanStep → PlanStep → ℕ → Store → Store → Type 0
Changes goal_id step_id x y now s t =
    (r : Replaces goal_id step_id x y s t) × ((r.before.status ≡ PlanStatus.approved)
      ⊎ (r.before.status ≡ PlanStatus.executing))
    × (r.after.updated_at ≡ now)
    × Settled r.after

pub is_runnable_cases :
    (status : PlanStatus)
    → is_runnable status ≡ true
    → (status ≡ PlanStatus.approved) ⊎ (status ≡ PlanStatus.executing)
is_runnable_cases PlanStatus.approved e = inl refl
is_runnable_cases PlanStatus.executing e = inr refl
is_runnable_cases PlanStatus.draft e = absurd (cc (e))
is_runnable_cases PlanStatus.awaiting_approval e = absurd (cc (e))
is_runnable_cases PlanStatus.paused e = absurd (cc (e))
is_runnable_cases PlanStatus.done e = absurd (cc (e))
is_runnable_cases PlanStatus.cancelled e = absurd (cc (e))

pub find-Splits :
    (id : String) (steps : List PlanStep) (x : PlanStep)
    → find (has_id id) steps ≡ some x
    → (front : List PlanStep) × (back : List PlanStep) × Splits id steps front x back
find-Splits id [] x e = absurd (cc (e))
find-Splits id (z ∷ zs) x e = elim (Bool-cases (has_id id z)) [
  | inl h ↦
      let same : z ≡ x = unwrap (rw h at e) in
      (
        [],
        zs,
        (
          ap (λ w. w ∷ zs) same,
          ap (λ (w : PlanStep). w.id) (sym same) ∙ ground (arith, eq_iff z.id id),
          tt,
        ),
      )
  | inr h ↦
      let (front, back, split) = find-Splits id zs x (rw h at e) in
      let (there, same, none_before) = split in
      (
        z ∷ front,
        back,
        (
          ap (λ w. z ∷ w) there,
          same,
          ((λ clash. absurd (ground (arith, clash, h, eq_iff z.id id))), none_before),
        ),
      )
]

pub Splits-find :
    (id : String) (front : List PlanStep) (x : PlanStep) (back : List PlanStep)
    → x.id ≡ id
    → All (λ (y : PlanStep). ¬ (y.id ≡ id)) front
    → find (has_id id) (front ++ x ∷ back) ≡ some x
Splits-find id [] x back e h = ground (arith, eq_iff x.id id)
Splits-find id (z ∷ zs) x back e h =
    ground (arith, eq_iff z.id id, h.0, Splits-find id zs x back e h.1)

pub Splits-update_step :
    (id : String) (f : PlanStep → PlanStep) (front : List PlanStep) (x : PlanStep)
    (back : List PlanStep)
    → x.id ≡ id
    → All (λ (y : PlanStep). ¬ (y.id ≡ id)) front
    → update_step id f (front ++ x ∷ back) ≡ front ++ f x ∷ back
unfolding update_step
Splits-update_step id f [] x back e h = ground (arith, eq_iff x.id id)
Splits-update_step id f (z ∷ zs) x back e h =
    ground (arith, eq_iff z.id id, h.0, Splits-update_step id f zs x back e h.1)
