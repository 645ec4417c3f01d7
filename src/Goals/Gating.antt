-- ===== src/Goals/Gating.antt =====
-- Every call on the goal store keeps its steps behind their gates.
use cli_bridge.Common.{
  ℕ, suc, ◌≡◌, refl, inl, inr, String, List, [], ◌∷◌, arith, nat_eq, string_eq, All, All-map,
  values, All-values-set,
}
use cli_bridge.Goals.Model.{
  Goal, PlanStep, Plan, goal_status_eq, plan_status_eq, step_status_eq, tier_eq,
}
use cli_bridge.Goals.Store.{Store, save_plan, PlanStepInput, new_steps, adopt, derived_steps}
use cli_bridge.Goals.Steps.{
  update_step, run_plan, commit_step, transition_step, pass_gate, approve_step_gate,
}
use cli_bridge.Goals.Calls.{after}
use cli_bridge.Goals.Transitions.{
  get_plan-All, transition_step_cases, All-update_step, commit_step-plans,
}
use cli_bridge.Goals.Gates.{
  IsGated, PlanGated, AllGated, Follows, Follows-IsGated, IsGated-more, pass_gate-IsGated,
}

pub AllGated-more :
    (id : String) (passed : List String) (s : Store) → AllGated passed s → AllGated (id ∷ passed) s
AllGated-more id passed s =
    All-map (λ (p : Plan). All-map (λ (t : PlanStep). IsGated-more id passed t) p.steps)
      (values s.plans)

pub save_plan-AllGated :
    (passed : List String) (p : Plan) (s : Store)
    → AllGated passed s
    → PlanGated passed p
    → AllGated passed (save_plan p s)
save_plan-AllGated passed p s h k = All-values-set (PlanGated passed) p.id p s.plans h k

commit_step-AllGated :
    (passed : List String) (goal_id : String) (plan : Plan) (step_id : String)
    (mutate : PlanStep → PlanStep) (now : ℕ) (s : Store)
    → ((t : PlanStep) → t.id ≡ step_id → IsGated passed t → IsGated passed (mutate t))
    → PlanGated passed plan
    → AllGated passed s
    → AllGated passed (commit_step goal_id plan step_id mutate now s)
unfolding run_plan
commit_step-AllGated passed goal_id plan step_id mutate now s k h a =
    rw (commit_step-plans goal_id plan step_id mutate now s) (
      All-values-set (PlanGated passed) plan.id
        (run_plan plan (update_step step_id mutate plan.steps) now) s.plans a
        (All-update_step (IsGated passed) step_id mutate plan.steps k h))

transition-AllGated :
    (passed : List String) (goal_id step_id : String) (now : ℕ) (mutate : PlanStep → PlanStep)
    (s : Store)
    → ((t : PlanStep) → t.id ≡ step_id → IsGated passed t → IsGated passed (mutate t))
    → AllGated passed s
    → AllGated passed (after s (transition_step goal_id step_id now mutate s))
transition-AllGated passed goal_id step_id now mutate s k a =
    elim (transition_step_cases goal_id step_id now mutate s) [
      | inl e ↦ rw e a
      | inr r ↦ rw r.carried (
          commit_step-AllGated passed goal_id r.plan step_id mutate now s k
            (get_plan-All (PlanGated passed) goal_id r.plan s a r.found) a)
    ]

pub Follows-AllGated :
    (passed : List String) (goal_id step_id : String) (now : ℕ) (mutate : PlanStep → PlanStep)
    (s : Store)
    → ((t : PlanStep) → Follows t (mutate t))
    → AllGated passed s
    → AllGated passed (after s (transition_step goal_id step_id now mutate s))
Follows-AllGated passed goal_id step_id now mutate s f =
    transition-AllGated passed goal_id step_id now mutate s
      (λ t e. Follows-IsGated passed t (mutate t) (f t))

pub approve_step_gate-AllGated :
    (passed : List String) (goal_id step_id : String) (now : ℕ) (s : Store)
    → AllGated passed s
    → AllGated (step_id ∷ passed) (after s (approve_step_gate goal_id step_id now s))
unfolding approve_step_gate
approve_step_gate-AllGated passed goal_id step_id now s a =
    transition-AllGated (step_id ∷ passed) goal_id step_id now pass_gate s
      (λ t e h. pass_gate-IsGated passed t step_id e h) (AllGated-more step_id passed s a)

pub new_steps-IsGated :
    (passed : List String) (id : String) (index : ℕ) (is : List PlanStepInput) (uuid : ℕ → String)
    (n : ℕ)
    → All (IsGated passed) (new_steps id index is uuid n)
unfolding new_steps
new_steps-IsGated passed id index [] uuid n = tt
new_steps-IsGated passed id index (i ∷ is) uuid n =
    ((refl, λ k b. absurd (ground arith)), new_steps-IsGated passed id (suc index) is uuid (suc n))

pub derived_steps-IsGated :
    (passed : List String) (id : String) (index : ℕ) (ps : List PlanStep) (uuid : ℕ → String)
    (n : ℕ)
    → All (IsGated passed) ps
    → All (IsGated passed) (derived_steps id index ps uuid n)
unfolding derived_steps
derived_steps-IsGated passed id index [] uuid n h = tt
derived_steps-IsGated passed id index (p ∷ ps) uuid n h = (
  (h.0.0, λ k b. absurd (ground arith)),
  derived_steps-IsGated passed id (suc index) ps uuid (suc n) h.1,
)

pub adopt-AllGated :
    (passed : List String) (goal : Goal) (plan : Plan) (now : ℕ) (s : Store) (errors : List String)
    → AllGated passed s
    → PlanGated passed plan
    → AllGated passed (adopt goal plan now s errors).1
unfolding adopt
adopt-AllGated passed goal plan now s [] a h = save_plan-AllGated passed plan s a h
adopt-AllGated passed goal plan now s (e ∷ es) a h = a
