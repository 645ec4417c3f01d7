-- ===== src/Goals/Examples.antt =====
-- A goal with a review and a change to the workspace, planned, approved and run.
use cli_bridge.Common.{
  In, String, ℕ, ◌≡◌, refl, inl, inr, true, false, none, some, List, [], ◌∷◌, ◌++◌, map, arith,
  nat_eq, string_eq, get, set, sort_by,
}
use cli_bridge.Goals.Model.{
  PlanStatus, StepStatus, StepKind, patch_proposal, workspace_write, PlanStep, Plan, goal_status_eq,
  plan_status_eq, step_status_eq, tier_eq, is_state_mutating_kind, validate_plan,
}
use cli_bridge.Goals.Store.{
  Store, get_plan_by_goal, CreateGoalInput, create_goal, PlanStepInput, AttachPlanInput, new_steps,
  attach_plan, approve_plan,
}
use cli_bridge.Goals.Steps.{
  transition_step, next_runnable_step, commit_step, start, block, pass_gate, complete,
  mark_step_running, block_step_for_gate, approve_step_gate, complete_step, get_goal,
}
use cli_bridge.Goals.Calls.{
  after, Call, creates, attaches, approves, starts, blocks, passes, completes, run, empty,
}
use cli_bridge.Goals.Orchestrator.{
  Orchestrator, AdvanceStepOptions, step_completed, step_gated, advance, run_all,
}
use cli_bridge.Goals.Finishing.{transition_step-Finishes, Finishes}
use cli_bridge.Goals.Runs.{Bounded, run_all-Bounded}
use cli_bridge.Goals.GateHistories.{run_mutating_passed}
use cli_bridge.Goals.Restoring.{export-restored, restored, last_for}
use cli_bridge.Common.{values}
use cli_bridge.Services.Examples.{tally}

abbrev planned_steps : List PlanStepInput
planned_steps =
    record { intent = "read"; kind = StepKind.review; target_endpoint_id = "e"; tier = none }
    ∷ record {
      intent = "write";
      kind = StepKind.write_file;
      target_endpoint_id = "e";
      tier = some workspace_write;
    }
    ∷ []

abbrev plan_input : AttachPlanInput
plan_input = record {
  id = some "p";
  goal_id = "g";
  steps = planned_steps;
  permitted_tiers = some (patch_proposal ∷ workspace_write ∷ []);
}

abbrev goal_input : CreateGoalInput
goal_input = record { id = some "g"; session_id = "s"; description = "tidy up"; project_id = none }

abbrev approved_calls : List (ℕ × Call)
approved_calls = (1, creates goal_input) ∷ (2, attaches plan_input) ∷ (3, approves "g") ∷ []

-- Both steps run; the second waits for its gate.
abbrev gated_calls : List (ℕ × Call)
gated_calls =
    approved_calls
    ++ (4, starts "g" "u")
      ∷ (5, completes "g" "u" (some "read it"))
      ∷ (6, blocks "g" "uI")
      ∷ (7, passes "g" "uI")
      ∷ (8, starts "g" "uI")
      ∷ []

abbrev step_statuses : Store → List StepStatus
step_statuses s = elim (get_plan_by_goal "g" s) [
  | none ↦ []
  | some plan ↦ map (λ (t : PlanStep). t.status) plan.steps
]

approved_steps_pending :
    step_statuses (run (empty tally) approved_calls) ≡ StepStatus.pending ∷ StepStatus.pending ∷ []
unfolding run create_goal attach_plan approve_plan get_plan_by_goal get set validate_plan new_steps
approved_steps_pending = refl

gated_steps :
    step_statuses (run (empty tally) gated_calls) ≡ StepStatus.done ∷ StepStatus.running ∷ []
unfolding run create_goal attach_plan approve_plan get_plan_by_goal get set mark_step_running
    complete_step block_step_for_gate approve_step_gate start complete block pass_gate validate_plan
    new_steps is_state_mutating_kind commit_step
gated_steps = refl

abbrev orchestrator : Orchestrator
orchestrator = record { store = run (empty tally) approved_calls; step_ceiling = 10; steps_run = 0 }

abbrev options : AdvanceStepOptions
options = record { simulate_failure = none; output = some "ok" }

run_all_stops_at_gate :
    (run_all "g" options (λ i j. 4) orchestrator).0
    ≡ step_completed "u" StepKind.review 0 (some "ok") ∷ step_gated "uI" StepKind.write_file 1 ∷ []
unfolding run create_goal attach_plan approve_plan get_plan_by_goal get set mark_step_running
    complete_step block_step_for_gate approve_step_gate start complete block pass_gate run_all
    advance next_runnable_step sort_by get_goal validate_plan new_steps is_state_mutating_kind
    commit_step
run_all_stops_at_gate = refl

abbrev read_step : PlanStep
read_step = record {
  id = "u";
  plan_id = "p";
  index = 0;
  intent = "read";
  kind = StepKind.review;
  target_endpoint_id = "e";
  tier = patch_proposal;
  is_state_mutating = false;
  status = StepStatus.done;
  output = some "read it";
  failure_reason = none;
}

abbrev write_step : PlanStep
write_step = record {
  id = "uI";
  plan_id = "p";
  index = 1;
  intent = "write";
  kind = StepKind.write_file;
  target_endpoint_id = "e";
  tier = workspace_write;
  is_state_mutating = true;
  status = StepStatus.running;
  output = none;
  failure_reason = none;
}

abbrev gated_plan : Plan
gated_plan = record {
  id = "p";
  goal_id = "g";
  parent_plan_id = none;
  steps = read_step ∷ write_step ∷ [];
  status = PlanStatus.executing;
  permitted_tiers = patch_proposal ∷ workspace_write ∷ [];
  created_at = 2;
  updated_at = 8;
  approved_at = some 3;
  paused_at = none;
  pause_reason = none;
}

run_mutating_passed_example :
    (write_step.is_state_mutating ≡ true) × In {A = String} "uI" ("uI" ∷ [])
unfolding run create_goal attach_plan approve_plan get_plan_by_goal get set mark_step_running
    complete_step block_step_for_gate approve_step_gate start complete block pass_gate validate_plan
    new_steps is_state_mutating_kind commit_step
run_mutating_passed_example =
    run_mutating_passed tally gated_calls gated_plan write_step (inl refl) (inr (inl refl)) refl
      refl

run_all-Bounded_example : Bounded orchestrator (run_all "g" options (λ i j. 4) orchestrator)
run_all-Bounded_example =
    run_all-Bounded "g" options (λ i j. 4) orchestrator (omega arith) (omega arith)

abbrev approved_store : Store
approved_store = run (empty tally) approved_calls

abbrev started_store : Store
started_store = after approved_store (transition_step "g" "u" 4 start approved_store)

transition_step-Finishes_example :
    Finishes "g" "u" start 4
      (record read_step { status = StepStatus.running; output = none })
      approved_store
      started_store
unfolding run create_goal attach_plan approve_plan get_plan_by_goal get set transition_step start
    validate_plan new_steps is_state_mutating_kind commit_step
transition_step-Finishes_example =
    transition_step-Finishes "g" "u" 4 start approved_store started_store
      (record read_step { status = StepStatus.running; output = none }) (refl, refl, tt) refl

export-restored_example :
    get "g" (restored approved_store (empty tally)).goals ≡ get "g" approved_store.goals
    × (get "g" (restored approved_store (empty tally)).plans ≡ get "g" approved_store.plans)
    × (get "g" (restored approved_store (empty tally)).plans_by_goal
        ≡ last_for "g" (values approved_store.plans) none)
unfolding run approve_plan get_plan_by_goal get attach_plan create_goal set validate_plan
export-restored_example =
    export-restored approved_store tally "g" (refl, refl, tt) (refl, refl, tt) (refl, tt)
