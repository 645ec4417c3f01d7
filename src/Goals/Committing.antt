-- ===== src/Goals/Committing.antt =====
-- What a commit of a step leaves, alone or after other transitions of the step.
use cli_bridge.Common.{
  ℕ, ◌≡◌, refl, sym, ap, ◌∙◌, inl, inr, true, false, String, none, some, List, [], ◌∷◌, arith,
  nat_eq, string_eq, eq_iff, Bool-cases, Option-cases, all, find, All, get, set, get-set,
  get-set_self, set-IsKeyed, IsKeyed, get-IsKeyed, truthy, ◌==◌,
}
use cli_bridge.Goals.Model.{
  PlanStatus, StepStatus, PlanStep, Plan, goal_status_eq, plan_status_eq, step_status_eq, tier_eq,
}
use cli_bridge.Goals.Store.{Store, save_plan, get_plan_by_goal}
use cli_bridge.Goals.Steps.{
  is_runnable, has_id, update_step, is_done, run_plan, commit_step, finish_goal,
}
use cli_bridge.Goals.Transitions.{commit_step-plans}
use cli_bridge.Goals.Changing.{
  plan_key, Replaces, Settled, Changes, is_runnable_cases, find-Splits, Splits-update_step,
}
use mathlib.Core.Path.{subst}

-- A plan is reached by the same goal after it is saved under its own identifier.
save_plan-get_plan_by_goal :
    (goal_id : String) (plan plan' : Plan) (s : Store)
    → get_plan_by_goal goal_id s ≡ some plan
    → IsKeyed plan_key s.plans
    → plan'.id ≡ plan.id
    → get_plan_by_goal goal_id (save_plan plan' s) ≡ some plan'
unfolding get_plan_by_goal
save_plan-get_plan_by_goal goal_id plan plan' s e k i =
    elim (Option-cases (truthy (get goal_id s.plans_by_goal))) [
      | inl n ↦
          absurd
            (let clash : none ≡ some plan = rw (n, get_plan_by_goal) at e in ground (arith, clash))
      | inr (id, n) ↦
          let found : get id s.plans ≡ some plan = rw (n, get_plan_by_goal) at e in
          let same_id : plan'.id ≡ id = i ∙ get-IsKeyed plan_key id plan s.plans k found in
          rw (n, get_plan_by_goal)
            (ap (λ j. get j (set plan'.id plan' s.plans)) (sym same_id)
              ∙ get-set_self plan'.id plan' s.plans)
    ]

finish_goal-lookup :
    (goal_id j : String) (now : ℕ) (plan : Plan) (s : Store)
    → get_plan_by_goal j (save_plan plan (finish_goal goal_id now s))
      ≡ get_plan_by_goal j (save_plan plan s)
unfolding get_plan_by_goal
finish_goal-lookup goal_id j now plan s = elim (Option-cases (get goal_id s.goals)) [
  | inl e ↦ rw (e, finish_goal) refl
  | inr (goal, e) ↦ rw (e, finish_goal) refl
]

commit_step-lookup :
    (goal_id : String) (plan : Plan) (step_id : String) (mutate : PlanStep → PlanStep) (now : ℕ)
    (s : Store)
    → get_plan_by_goal goal_id (commit_step goal_id plan step_id mutate now s)
      ≡ get_plan_by_goal goal_id
          (save_plan (run_plan plan (update_step step_id mutate plan.steps) now) s)
unfolding commit_step run_plan
commit_step-lookup goal_id plan step_id mutate now s =
    elim (Bool-cases (all is_done (update_step step_id mutate plan.steps))) [
      | inr e ↦ rw (e, commit_step) refl
      | inl e ↦ rw (e, commit_step) (finish_goal-lookup goal_id goal_id now _ s)
    ]

pub commit_step-IsKeyed :
    (goal_id : String) (plan : Plan) (step_id : String) (mutate : PlanStep → PlanStep) (now : ℕ)
    (s : Store)
    → IsKeyed plan_key s.plans
    → IsKeyed plan_key (commit_step goal_id plan step_id mutate now s).plans
unfolding run_plan
commit_step-IsKeyed goal_id plan step_id mutate now s k =
    subst (IsKeyed plan_key) (sym (commit_step-plans goal_id plan step_id mutate now s))
      (set-IsKeyed plan_key (run_plan plan (update_step step_id mutate plan.steps) now) s.plans k)

-- The plan that a commit leaves, from what a plan was before.
abbrev pub Committed :
    (goal_id step_id : String) (x y : PlanStep) (before plan : Plan)
    → (PlanStep → PlanStep)
    → ℕ
    → Store
    → Store
    → Type 0
Committed goal_id step_id x y before plan mutate now s t =
    (r : Replaces goal_id step_id x y s t) × (r.before ≡ before)
    × (r.after ≡ run_plan plan (update_step step_id mutate plan.steps) now)

pub commit_step-Replaces :
    (goal_id step_id : String) (x y : PlanStep) (mutate : PlanStep → PlanStep) (now : ℕ)
    (s m : Store) (r : Replaces goal_id step_id x y s m)
    → y.id ≡ step_id
    → IsKeyed plan_key m.plans
    → Committed goal_id step_id x
        (mutate y)
        r.before
        r.after
        mutate
        now
        s
        (commit_step goal_id r.after step_id mutate now m)
unfolding run_plan
commit_step-Replaces goal_id step_id x y mutate now s m r i k =
    let plan : Plan = r.after in
    let steps : List PlanStep = update_step step_id mutate plan.steps in
    let plan' : Plan = run_plan plan steps now in
    let status : PlanStatus = plan'.status in
    let t : Store = commit_step goal_id plan step_id mutate now m in
    (
      record {
        before = r.before;
        after = plan';
        front = r.front;
        back = r.back;
        found = r.found;
        split = r.split;
        left =
            commit_step-lookup goal_id plan step_id mutate now m
            ∙ save_plan-get_plan_by_goal goal_id plan plan' m r.left k refl;
        steps =
            ap (update_step step_id mutate) r.steps
            ∙ Splits-update_step step_id mutate r.front y r.back i r.split.2;
        kept =
            ap (λ (q : Plan). record q { steps = steps; status = status; updated_at = now }) r.kept;
        others = λ j apart.
            ap (get j) (commit_step-plans goal_id plan step_id mutate now m)
            ∙ get-set plan.id j plan' m.plans
            ∙ (let same : plan.id ≡ r.before.id = ap (λ (q : Plan). q.id) r.kept in
                let other : (plan.id == j) ≡ false = elim (Bool-cases (plan.id == j)) [
                  | inr h ↦ h
                  | inl h ↦ absurd (apart (ground (arith, h, same, eq_iff plan.id j)))
                ] in
                rw other (r.others j apart));
      },
      refl,
      refl,
    )

all-All_done :
    (steps : List PlanStep)
    → all is_done steps ≡ true
    → All (λ (z : PlanStep). z.status ≡ StepStatus.done) steps
all-All_done [] e = tt
all-All_done (z ∷ zs) e = elim (Bool-cases (is_done z)) [
  | inl h ↦ ((step_status_eq.same_iff z.status StepStatus.done).0 h, all-All_done zs (rw h at e))
  | inr h ↦ absurd (let clash : false ≡ true = rw h at e in cc (clash))
]

All-all_done :
    (steps : List PlanStep)
    → All (λ (z : PlanStep). z.status ≡ StepStatus.done) steps
    → all is_done steps ≡ true
All-all_done [] h = refl
All-all_done (z ∷ zs) h = rw h.0 (All-all_done zs h.1)

run_plan-Settled :
    (plan : Plan) (steps : List PlanStep) (now : ℕ)
    → is_runnable plan.status ≡ true
    → Settled (run_plan plan steps now)
unfolding run_plan
run_plan-Settled plan steps now r = elim (Bool-cases (all is_done steps)) [
  | inl e ↦ inl (all-All_done steps e, rw e refl)
  | inr e ↦ inr (
    (λ h. absurd (let clash : true ≡ false = sym (All-all_done steps h) ∙ e in cc (clash))),
    elim (is_runnable_cases plan.status r) [ inl a ↦ rw (e, a) refl | inr a ↦ rw (e, a) refl ],
  )
]

-- A step that stays as it is.
pub Replaces-self :
    (goal_id step_id : String) (plan : Plan) (x : PlanStep) (s : Store)
    → get_plan_by_goal goal_id s ≡ some plan
    → find (has_id step_id) plan.steps ≡ some x
    → (r : Replaces goal_id step_id x x s s) × (r.before ≡ plan) × (r.after ≡ plan)
Replaces-self goal_id step_id plan x s e f =
    let (front, back, split) = find-Splits step_id plan.steps x f in
    (
      record {
        before = plan;
        after = plan;
        front = front;
        back = back;
        found = e;
        split = split;
        left = e;
        steps = split.0;
        kept = refl;
        others = λ j apart. refl;
      },
      refl,
      refl,
    )

-- A commit after other transitions of the same step.
pub commit_step-Changes :
    (goal_id step_id : String) (x y : PlanStep) (mutate : PlanStep → PlanStep) (now : ℕ)
    (s m : Store) (r : Replaces goal_id step_id x y s m)
    → is_runnable r.before.status ≡ true
    → is_runnable r.after.status ≡ true
    → y.id ≡ step_id
    → IsKeyed plan_key m.plans
    → Changes goal_id step_id x (mutate y) now s (commit_step goal_id r.after step_id mutate now m)
unfolding run_plan
commit_step-Changes goal_id step_id x y mutate now s m r b a i k =
    let (r', same_before, same_after) =
      commit_step-Replaces goal_id step_id x y mutate now s m r i k in
    (
      r',
      is_runnable_cases r'.before.status (ap (λ (q : Plan). is_runnable q.status) same_before ∙ b),
      ap (λ (q : Plan). q.updated_at) same_after,
      subst Settled (sym same_after)
          (run_plan-Settled r.after (update_step step_id mutate r.after.steps) now a),
    )
