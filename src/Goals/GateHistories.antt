-- ===== src/Goals/GateHistories.antt =====
-- The gates over whole histories of the goal store.
use cli_bridge.Common.{
  ◌∙◌, true, ℕ, ◌+◌, ◌≡◌, refl, inl, inr, ◌||◌, String, Option, none, some, List, [], ◌∷◌, ◌==◌,
  nat_eq, string_eq, Bool-cases, Option-cases, length, All-In, get, values, get-All, In,
}
use cli_bridge.Goals.Model.{
  is_state_mutating_kind, GoalStatus, PlanStatus, Goal, PlanStep, Plan, goal_status_eq,
  plan_status_eq, step_status_eq, tier_eq, validate_plan,
}
use cli_bridge.Goals.Store.{
  Store, save_goal, get_plan_by_goal, CreateGoalInput, create_goal, AttachPlanInput, attached_plan,
  attach_to, attach_plan, approve_plan, DerivePlanInput, derived_plan, derive_from, derive_plan,
  new_id,
}
use cli_bridge.Goals.Steps.{
  start, block, complete, fail, mark_step_running, block_step_for_gate, complete_step, fail_step,
  cancel_plan, cancel_goal, pause_plan,
}
use cli_bridge.Goals.Calls.{
  Call, creates, attaches, approves, derives, starts, blocks, passes, completes, fails, cancels,
  pauses, after, step, run, gates_of, gates, empty,
}
use cli_bridge.Goals.Transitions.{get_plan-All}
use cli_bridge.Goals.Gates.{
  past_gate, IsGated, PlanGated, AllGated, start-Follows, block-Follows, complete-Follows,
  fail-Follows,
}
use cli_bridge.Goals.Gating.{
  Follows-AllGated, approve_step_gate-AllGated, new_steps-IsGated, derived_steps-IsGated,
  adopt-AllGated, save_plan-AllGated,
}

create_goal-AllGated :
    (passed : List String) (input : CreateGoalInput) (now : ℕ) (s : Store)
    → AllGated passed s
    → AllGated passed (create_goal input now s).1
unfolding create_goal
create_goal-AllGated passed input now s a = elim (Option-cases input.id) [
  | inl e ↦ rw (e, create_goal) a
  | inr (id, e) ↦ rw (e, create_goal) a
]

new_id-AllGated :
    (passed : List String) (id : Option String) (s : Store)
    → AllGated passed s
    → AllGated passed (new_id id s).1
new_id-AllGated passed none s a = a
new_id-AllGated passed (some id) s a = a

attach_to-AllGated :
    (passed : List String) (input : AttachPlanInput) (now : ℕ) (s : Store) (goal : Goal)
    → AllGated passed s
    → AllGated passed (attach_to input now s goal).1
unfolding attach_to attached_plan
attach_to-AllGated passed input now s goal a =
    let n : String × Store = new_id input.id s in
    let s' : Store = record n.1 { drawn = n.1.drawn + length input.steps } in
    let plan : Plan = attached_plan input goal n.0 now n.1 in
    adopt-AllGated passed goal plan now s' (validate_plan plan)
      (new_id-AllGated passed input.id s a)
      (new_steps-IsGated passed n.0 0 input.steps n.1.uuid n.1.drawn)

attach_plan-AllGated :
    (passed : List String) (input : AttachPlanInput) (now : ℕ) (s : Store)
    → AllGated passed s
    → AllGated passed (after s (attach_plan input now s))
unfolding attach_plan
attach_plan-AllGated passed input now s a = elim (Option-cases (get input.goal_id s.goals)) [
  | inl e ↦ rw (e, attach_plan) a
  | inr (goal, e) ↦ elim (Bool-cases (goal.status == GoalStatus.draft)) [
    | inl b ↦ rw (e, b, attach_plan) (attach_to-AllGated passed input now s goal a)
    | inr b ↦ rw (e, b, attach_plan) a
  ]
]

derive_from-AllGated :
    (passed : List String) (input : DerivePlanInput) (now : ℕ) (s : Store) (goal : Goal)
    (parent : Plan)
    → PlanGated passed parent
    → AllGated passed s
    → AllGated passed (derive_from input now s goal parent).1
unfolding derive_from derived_plan
derive_from-AllGated passed input now s goal parent h a =
    let n : String × Store = new_id input.id s in
    let s' : Store = record n.1 { drawn = n.1.drawn + length parent.steps } in
    let plan : Plan = derived_plan parent goal n.0 now n.1 in
    adopt-AllGated passed goal plan now s' (validate_plan plan)
      (new_id-AllGated passed input.id s a)
      (derived_steps-IsGated passed n.0 0 parent.steps n.1.uuid n.1.drawn h)

derive_plan-AllGated :
    (passed : List String) (input : DerivePlanInput) (now : ℕ) (s : Store)
    → AllGated passed s
    → AllGated passed (after s (derive_plan input now s))
unfolding derive_plan
derive_plan-AllGated passed input now s a = elim (Option-cases (get input.goal_id s.goals)) [
  | inl e ↦ rw (e, derive_plan) a
  | inr (goal, e) ↦ elim (Option-cases (get input.parent_plan_id s.plans)) [
    | inl f ↦ rw (e, f, derive_plan) a
    | inr (parent, f) ↦ elim (Bool-cases (parent.goal_id == goal.id)) [
      | inr b ↦ rw (e, f, b, derive_plan) a
      | inl b ↦
          rw (e, f, b, derive_plan)
            (derive_from-AllGated passed input now s goal parent
              (get-All (PlanGated passed) input.parent_plan_id parent s.plans a f) a)
    ]
  ]
]

approve_plan-AllGated :
    (passed : List String) (goal_id : String) (now : ℕ) (s : Store)
    → AllGated passed s
    → AllGated passed (after s (approve_plan goal_id now s))
unfolding approve_plan
approve_plan-AllGated passed goal_id now s a = elim (Option-cases (get_plan_by_goal goal_id s)) [
  | inl e ↦ rw (e, approve_plan) a
  | inr (plan, e) ↦ elim (Option-cases (get goal_id s.goals)) [
    | inl f ↦ rw (e, f, approve_plan) a
    | inr (goal, f) ↦ elim (Bool-cases (plan.status == PlanStatus.awaiting_approval)) [
      | inr b ↦ rw (e, f, b, approve_plan) a
      | inl b ↦
          rw (e, f, b, approve_plan)
            (save_plan-AllGated passed
              (record plan {
                status = PlanStatus.approved;
                approved_at = some now;
                updated_at = now;
              })
              s a (get_plan-All (PlanGated passed) goal_id plan s a e))
    ]
  ]
]

cancel_plan-AllGated :
    (passed : List String) (plan : Option Plan) (now : ℕ) (s : Store) (goal_id : String)
    → get_plan_by_goal goal_id s ≡ plan
    → AllGated passed s
    → AllGated passed (cancel_plan plan now s)
cancel_plan-AllGated passed none now s goal_id e a = a
cancel_plan-AllGated passed (some plan) now s goal_id e a =
    elim (Bool-cases (plan.status == PlanStatus.done)) [
      | inl b ↦ rw (b, cancel_plan) a
      | inr b ↦
          rw (b, cancel_plan)
            (save_plan-AllGated passed
              (record plan { status = PlanStatus.cancelled; updated_at = now }) s a
              (get_plan-All (PlanGated passed) goal_id plan s a e))
    ]

cancel_goal-AllGated :
    (passed : List String) (goal_id : String) (now : ℕ) (s : Store)
    → AllGated passed s
    → AllGated passed (after s (cancel_goal goal_id now s))
unfolding cancel_goal
cancel_goal-AllGated passed goal_id now s a = elim (Option-cases (get goal_id s.goals)) [
  | inl e ↦ rw (e, cancel_goal) a
  | inr (goal, e) ↦
      elim (Bool-cases (goal.status == GoalStatus.done || goal.status == GoalStatus.cancelled)) [
        | inl b ↦ rw (e, b, cancel_goal) a
        | inr b ↦
            let s' : Store =
              save_goal (record goal { status = GoalStatus.cancelled; updated_at = now }) s in
            rw (e, b, cancel_goal)
              (cancel_plan-AllGated passed (get_plan_by_goal goal_id s') now s' goal_id refl a)
      ]
]

pause_plan-AllGated :
    (passed : List String) (goal_id reason : String) (now : ℕ) (s : Store)
    → AllGated passed s
    → AllGated passed (after s (pause_plan goal_id reason now s))
unfolding pause_plan
pause_plan-AllGated passed goal_id reason now s a = elim (Option-cases (get goal_id s.goals)) [
  | inl e ↦ rw (e, pause_plan) a
  | inr (goal, e) ↦ elim (Option-cases (get_plan_by_goal goal_id s)) [
    | inl f ↦ rw (e, f, pause_plan) a
    | inr (plan, f) ↦
        elim (Bool-cases (plan.status == PlanStatus.done || plan.status == PlanStatus.cancelled)) [
          | inl b ↦ rw (e, f, b, pause_plan) a
          | inr b ↦
              rw (e, f, b, pause_plan)
                (save_plan-AllGated passed
                  (record plan {
                    status = PlanStatus.paused;
                    paused_at = some now;
                    pause_reason = some reason;
                    updated_at = now;
                  })
                  (save_goal (record goal { status = GoalStatus.paused; updated_at = now }) s) a
                  (get_plan-All (PlanGated passed) goal_id plan s a f))
        ]
  ]
]

step-AllGated :
    (passed : List String) (now : ℕ) (c : Call) (s : Store)
    → AllGated passed s
    → AllGated (gates_of c passed) (step s (now, c))
unfolding step mark_step_running block_step_for_gate complete_step fail_step
step-AllGated passed now (creates input) s a = create_goal-AllGated passed input now s a
step-AllGated passed now (attaches input) s a = attach_plan-AllGated passed input now s a
step-AllGated passed now (approves goal) s a = approve_plan-AllGated passed goal now s a
step-AllGated passed now (derives input) s a = derive_plan-AllGated passed input now s a
step-AllGated passed now (starts goal id) s a =
    Follows-AllGated passed goal id now start s (λ t. start-Follows t) a
step-AllGated passed now (blocks goal id) s a =
    Follows-AllGated passed goal id now block s (λ t. block-Follows t) a
step-AllGated passed now (passes goal id) s a = approve_step_gate-AllGated passed goal id now s a
step-AllGated passed now (completes goal id output) s a =
    Follows-AllGated passed goal id now (complete output) s (λ t. complete-Follows output t) a
step-AllGated passed now (fails goal id reason) s a =
    Follows-AllGated passed goal id now (fail reason) s (λ t. fail-Follows reason t) a
step-AllGated passed now (cancels goal) s a = cancel_goal-AllGated passed goal now s a
step-AllGated passed now (pauses goal reason) s a = pause_plan-AllGated passed goal reason now s a

run-AllGated :
    (passed : List String) (cs : List (ℕ × Call)) (s : Store)
    → AllGated passed s
    → AllGated (gates cs passed) (run s cs)
unfolding run
run-AllGated passed [] s a = a
run-AllGated passed ((now, c) ∷ cs) s a =
    run-AllGated (gates_of c passed) cs (step s (now, c)) (step-AllGated passed now c s a)

-- In every store that calls reach from an empty one, whatever calls they are, hydrations apart, and in
-- whatever order: a step of any plan whose kind changes state and which is gate-approved, running or
-- done is flagged as changing state, and one of the calls asked to approve the gate of its identifier.
pub run_mutating_passed :
    (uuid : ℕ → String) (cs : List (ℕ × Call)) (plan : Plan) (t : PlanStep)
    → In plan (values (run (empty uuid) cs).plans)
    → In t plan.steps
    → is_state_mutating_kind t.kind ≡ true
    → past_gate t.status ≡ true
    → (t.is_state_mutating ≡ true) × In t.id (gates cs [])
run_mutating_passed uuid cs plan t p i k b =
    let h =
      All-In (IsGated (gates cs [])) plan.steps
        (All-In (PlanGated (gates cs [])) (values (run (empty uuid) cs).plans)
          (run-AllGated [] cs (empty uuid) tt) p)
        i in
    (h.0 ∙ k, h.1 k b)
