-- ===== src/Goals/Steps.antt =====
-- The steps of an approved plan, and the ends of a goal: `transitionStep` and its five callers,
-- `nextRunnableStep`, `cancelGoal` and `pausePlan` of `InMemoryGoalStore`.
use cli_bridge.Common.{
  ℕ, Bool, true, false, not, ◌&&◌, ◌||◌, String, Option, none, some, List, [], ◌∷◌, if◌then◌else◌,
  ◌==◌, nat_eq, string_eq, all, filter, find, head?, get, values, sort_by,
}
use cli_bridge.Goals.Model.{
  GoalStatus, PlanStatus, StepStatus, Goal, PlanStep, Plan, goal_status_eq, plan_status_eq,
  step_status_eq, tier_eq,
}
use cli_bridge.Goals.Store.{Store, save_goal, save_plan, get_plan_by_goal}

-- The plan may run: `approved` or `executing`.
abbrev pub is_runnable : PlanStatus → Bool
is_runnable PlanStatus.approved = true
is_runnable PlanStatus.executing = true
is_runnable _ = false

abbrev pub is_ready : PlanStep → Bool
is_ready step = step.status == StepStatus.pending || step.status == StepStatus.gated_approved

unfoldable pub next_runnable_step : String → Store → Option PlanStep
next_runnable_step goal_id s = elim (get_plan_by_goal goal_id s) [
  | none ↦ none
  | some plan ↦
      if is_runnable plan.status
      then head? (sort_by (λ (step : PlanStep). step.index) (filter is_ready plan.steps))
      else none
]

abbrev pub has_id : String → PlanStep → Bool
has_id id step = step.id == id

-- The write to the step that `find` returned.
unfoldable pub update_step : String → (PlanStep → PlanStep) → List PlanStep → List PlanStep
update_step id f [] = []
update_step id f (step ∷ steps) =
    if has_id id step then f step ∷ steps else step ∷ update_step id f steps

abbrev pub is_done : PlanStep → Bool
is_done step = step.status == StepStatus.done

abbrev pub finish_goal : String → ℕ → Store → Store
finish_goal goal_id now s = elim (get goal_id s.goals) [
  | none ↦ s
  | some goal ↦ save_goal (record goal { status = GoalStatus.done; updated_at = now }) s
]

-- The status of the plan when its steps are the given ones.
unfoldable pub run_plan : Plan → List PlanStep → ℕ → Plan
run_plan plan steps now = record plan {
  steps = steps;
  updated_at = now;
  status =
      if all is_done steps
      then PlanStatus.done
      else (if plan.status == PlanStatus.approved then PlanStatus.executing else plan.status);
}

unfoldable pub commit_step : String → Plan → String → (PlanStep → PlanStep) → ℕ → Store → Store
unfolding update_step run_plan
commit_step goal_id plan step_id mutate now s =
    let plan' : Plan = run_plan plan (update_step step_id mutate plan.steps) now in
    save_plan plan' (if all is_done plan'.steps then finish_goal goal_id now s else s)

-- A mutation that leaves the status alone is refused, but not on a step that has failed.
abbrev pub is_refused : PlanStep → PlanStep → Bool
is_refused before after = after.status == before.status && not (before.status == StepStatus.failed)

unfoldable pub transition_step :
    String → String → ℕ → (PlanStep → PlanStep) → Store → Option (PlanStep × Store)
transition_step goal_id step_id now mutate s = elim (get_plan_by_goal goal_id s) [
  | none ↦ none
  | some plan ↦
      if is_runnable plan.status
      then elim (find (has_id step_id) plan.steps) [
        | none ↦ none
        | some step ↦
            if is_refused step (mutate step)
            then none
            else some (mutate step, commit_step goal_id plan step_id mutate now s)
      ]
      else none
]

-- A step that changes state must have passed its gate; any other may run when it is pending.
unfoldable pub start : PlanStep → PlanStep
start step =
    if step.status == StepStatus.pending && step.is_state_mutating
    then step
    else (if is_ready step then record step { status = StepStatus.running } else step)

unfoldable pub block : PlanStep → PlanStep
block step =
    if step.status == StepStatus.pending && step.is_state_mutating
    then record step { status = StepStatus.blocked_needs_gate }
    else step

unfoldable pub pass_gate : PlanStep → PlanStep
pass_gate step =
    if step.status == StepStatus.blocked_needs_gate
    then record step { status = StepStatus.gated_approved }
    else step

unfoldable pub complete : Option String → PlanStep → PlanStep
complete output step =
    if step.status == StepStatus.running
    then record step { status = StepStatus.done; output = output }
    else step

-- From every status.
unfoldable pub fail : String → PlanStep → PlanStep
fail reason step = record step { status = StepStatus.failed; failure_reason = some reason }

unfoldable pub mark_step_running : String → String → ℕ → Store → Option (PlanStep × Store)
unfolding transition_step
mark_step_running goal_id step_id now = transition_step goal_id step_id now start

unfoldable pub block_step_for_gate : String → String → ℕ → Store → Option (PlanStep × Store)
unfolding transition_step
block_step_for_gate goal_id step_id now = transition_step goal_id step_id now block

unfoldable pub approve_step_gate : String → String → ℕ → Store → Option (PlanStep × Store)
unfolding transition_step
approve_step_gate goal_id step_id now = transition_step goal_id step_id now pass_gate

unfoldable pub complete_step :
    String → String → Option String → ℕ → Store → Option (PlanStep × Store)
unfolding transition_step
complete_step goal_id step_id output now = transition_step goal_id step_id now (complete output)

unfoldable pub fail_step : String → String → String → ℕ → Store → Option (PlanStep × Store)
unfolding transition_step
fail_step goal_id step_id reason now = transition_step goal_id step_id now (fail reason)

abbrev pub cancel_plan : Option Plan → ℕ → Store → Store
cancel_plan none now s = s
cancel_plan (some plan) now s =
    if plan.status == PlanStatus.done
    then s
    else save_plan (record plan { status = PlanStatus.cancelled; updated_at = now }) s

unfoldable pub cancel_goal : String → ℕ → Store → Option (Goal × Store)
cancel_goal goal_id now s = elim (get goal_id s.goals) [
  | none ↦ none
  | some goal ↦
      if goal.status == GoalStatus.done || goal.status == GoalStatus.cancelled
      then none
      else (let goal' : Goal = record goal { status = GoalStatus.cancelled; updated_at = now } in
          let s' = save_goal goal' s in
          some (goal', cancel_plan (get_plan_by_goal goal_id s') now s'))
]

abbrev pub pause : Goal → Plan → String → ℕ → Store → Plan × Store
pause goal plan reason now s =
    let plan' : Plan = record plan {
      status = PlanStatus.paused;
      paused_at = some now;
      pause_reason = some reason;
      updated_at = now;
    } in
    (
      plan',
      save_plan plan' (save_goal (record goal { status = GoalStatus.paused; updated_at = now }) s),
    )

unfoldable pub pause_plan : String → String → ℕ → Store → Option (Plan × Store)
pause_plan goal_id reason now s = elim (get goal_id s.goals) [
  | none ↦ none
  | some goal ↦ elim (get_plan_by_goal goal_id s) [
    | none ↦ none
    | some plan ↦
        if plan.status == PlanStatus.done || plan.status == PlanStatus.cancelled
        then none
        else some (pause goal plan reason now s)
  ]
]

unfoldable pub get_goal : String → Store → Option Goal
get_goal goal_id s = get goal_id s.goals

unfoldable pub get_plan_by_id : String → Store → Option Plan
get_plan_by_id plan_id s = get plan_id s.plans

-- `listGoals` and `exportGoals`
unfoldable pub list_goals : Store → List Goal
list_goals s = values s.goals

unfoldable pub export_plans : Store → List Plan
export_plans s = values s.plans
