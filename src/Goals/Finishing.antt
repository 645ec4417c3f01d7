-- ===== src/Goals/Finishing.antt =====
-- What a transition of a step leaves in the store.
use cli_bridge.Common.{ℕ, ◌≡◌, sym, ap, ◌∙◌, inl, inr, String, none, some, arith, unwrap, IsKeyed}
use cli_bridge.Goals.Model.{PlanStep, Plan}
use cli_bridge.Goals.Store.{Store}
use cli_bridge.Goals.Steps.{is_runnable, commit_step, transition_step}
use cli_bridge.Goals.Transitions.{Transition, transition_step_cases}
use cli_bridge.Goals.Changing.{plan_key, Changes}
use cli_bridge.Goals.Committing.{Replaces-self, commit_step-Changes}
use mathlib.Core.Path.{subst}

-- The step before a transition, which answers with the step after it.
abbrev pub Finishes :
    String → String → (PlanStep → PlanStep) → ℕ → PlanStep → Store → Store → Type 0
Finishes goal_id step_id mutate now step s t =
    (x : PlanStep) × (step ≡ mutate x) × Changes goal_id step_id x (mutate x) now s t

pub Transition-Changes :
    (goal_id step_id : String) (now : ℕ) (mutate : PlanStep → PlanStep) (s : Store)
    (r : Transition goal_id step_id now mutate s)
    → IsKeyed plan_key s.plans
    → Changes goal_id step_id r.before
        (mutate r.before)
        now
        s
        (commit_step goal_id r.plan step_id mutate now s)
Transition-Changes goal_id step_id now mutate s r k =
    let (self, same_before, same_after) =
      Replaces-self goal_id step_id r.plan r.before s r.found r.picked in
    let changes =
      commit_step-Changes goal_id step_id r.before r.before mutate now s s self
        (ap (λ (q : Plan). is_runnable q.status) same_before ∙ r.runnable)
        (ap (λ (q : Plan). is_runnable q.status) same_after ∙ r.runnable) self.split.1 k in
    subst
      (λ (q : Plan).
        Changes goal_id step_id r.before (mutate r.before) now s
          (commit_step goal_id q step_id mutate now s))
      same_after changes

-- Where each plan stands under its own identifier, a transition of a step that is carried out finds the
-- plan of the goal approved or executing. It replaces the first of its steps that has the identifier
-- by the mutated step, with which it answers, keeps the steps before and behind it, the plan's other
-- fields and every other plan, dates the plan, and leaves it done when all of its steps are done, and
-- executing else.
pub transition_step-Finishes :
    (goal_id step_id : String) (now : ℕ) (mutate : PlanStep → PlanStep) (s t : Store)
    (step : PlanStep)
    → IsKeyed plan_key s.plans
    → transition_step goal_id step_id now mutate s ≡ some (step, t)
    → Finishes goal_id step_id mutate now step s t
transition_step-Finishes goal_id step_id now mutate s t step k e =
    elim (transition_step_cases goal_id step_id now mutate s) [
      | inl n ↦ absurd (let clash : none ≡ some (step, t) = sym n ∙ e in ground (arith, clash))
      | inr r ↦
          let same : (mutate r.before, commit_step goal_id r.plan step_id mutate now s)
              ≡ (step, t) =
            unwrap (sym r.carried ∙ e) in
          (
            r.before,
            ap (λ (w : PlanStep × Store). w.0) (sym same),
            subst (Changes goal_id step_id r.before (mutate r.before) now s)
                (ap (λ (w : PlanStep × Store). w.1) same)
                (Transition-Changes goal_id step_id now mutate s r k),
          )
    ]
