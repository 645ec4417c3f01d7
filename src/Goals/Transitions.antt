-- ===== src/Goals/Transitions.antt =====
-- What `transitionStep` does to the plans of the store.
use cli_bridge.Common.{
  ℕ, ◌≡◌, refl, ◌⊎◌, inl, inr, true, false, String, none, some, List, [], ◌∷◌, arith, eq_iff,
  nat_eq, string_eq, Bool-cases, Option-cases, all, find, All, get, set, values, get-All, truthy,
}
use cli_bridge.Goals.Model.{PlanStep, Plan, goal_status_eq, plan_status_eq, step_status_eq, tier_eq}
use cli_bridge.Goals.Store.{Store, get_plan_by_goal}
use cli_bridge.Goals.Steps.{
  is_runnable, has_id, update_step, is_done, run_plan, commit_step, is_refused, transition_step,
  finish_goal,
}

pub get_plan-All {κ} :
    (P : Plan → Type κ) (goal_id : String) (plan : Plan) (s : Store)
    → All P (values s.plans)
    → get_plan_by_goal goal_id s ≡ some plan
    → P plan
unfolding get_plan_by_goal
get_plan-All P goal_id plan s h e = elim (Option-cases (truthy (get goal_id s.plans_by_goal))) [
  | inl i ↦ absurd (let e' : none ≡ some plan = rw (i, get_plan_by_goal) at e in ground arith)
  | inr (id, i) ↦ get-All P id plan s.plans h (rw (i, get_plan_by_goal) at e)
]

pub All-update_step :
    (P : PlanStep → Type 0) (id : String) (f : PlanStep → PlanStep) (steps : List PlanStep)
    → ((t : PlanStep) → t.id ≡ id → P t → P (f t))
    → All P steps
    → All P (update_step id f steps)
unfolding update_step
All-update_step P id f [] k h = tt
All-update_step P id f (t ∷ ts) k h = elim (Bool-cases (has_id id t)) [
  | inl e ↦ rw e (k t (ground (arith, eq_iff t.id id)) h.0, h.1)
  | inr e ↦ rw e (h.0, All-update_step P id f ts k h.1)
]

pub finish_goal-plans :
    (goal_id : String) (now : ℕ) (s : Store) → (finish_goal goal_id now s).plans ≡ s.plans
finish_goal-plans goal_id now s = elim (Option-cases (get goal_id s.goals)) [
  | inl e ↦ rw (e, finish_goal) refl
  | inr (goal, e) ↦ rw (e, finish_goal) refl
]

pub commit_step-plans :
    (goal_id : String) (plan : Plan) (step_id : String) (mutate : PlanStep → PlanStep) (now : ℕ)
    (s : Store)
    → (commit_step goal_id plan step_id mutate now s).plans
      ≡ set plan.id (run_plan plan (update_step step_id mutate plan.steps) now) s.plans
unfolding commit_step run_plan
commit_step-plans goal_id plan step_id mutate now s =
    elim (Bool-cases (all is_done (update_step step_id mutate plan.steps))) [
      | inl e ↦ rw (e, commit_step, finish_goal-plans goal_id now s) refl
      | inr e ↦ rw (e, commit_step) refl
    ]

-- A transition that is carried out.
pub record Transition (goal_id step_id : String) (now : ℕ) (mutate : PlanStep → PlanStep)
    (s : Store) : Type 0 where
  pub plan : Plan
  pub before : PlanStep
  pub found : get_plan_by_goal goal_id s ≡ some plan
  pub runnable : is_runnable plan.status ≡ true
  pub picked : find (has_id step_id) plan.steps ≡ some before
  pub moves : is_refused before (mutate before) ≡ false
  pub carried :
      transition_step goal_id step_id now mutate s
      ≡ some (mutate before, commit_step goal_id plan step_id mutate now s)

pub transition_step_cases :
    (goal_id step_id : String) (now : ℕ) (mutate : PlanStep → PlanStep) (s : Store)
    → (transition_step goal_id step_id now mutate s ≡ none)
      ⊎ Transition goal_id step_id now mutate s
unfolding transition_step
transition_step_cases goal_id step_id now mutate s =
    elim (Option-cases (get_plan_by_goal goal_id s)) [
      | inl e ↦ inl (rw (e, transition_step) refl)
      | inr (plan, e) ↦ elim (Bool-cases (is_runnable plan.status)) [
        | inr r ↦ inl (rw (e, r, transition_step) refl)
        | inl r ↦ elim (Option-cases (find (has_id step_id) plan.steps)) [
          | inl f ↦ inl (rw (e, r, f, transition_step) refl)
          | inr (t, f) ↦ elim (Bool-cases (is_refused t (mutate t))) [
            | inl m ↦ inl (rw (e, r, f, m, transition_step) refl)
            | inr m ↦ inr record {
              plan = plan;
              before = t;
              found = e;
              runnable = r;
              picked = f;
              moves = m;
              carried = rw (e, r, f, m, transition_step) refl;
            }
          ]
        ]
      ]
    ]
