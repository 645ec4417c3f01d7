-- ===== src/Goals/Orchestrator.antt =====
-- `GoalOrchestrator` of apps/local-server/src/goal/goal-orchestrator.ts. The times that `Date.now`
-- answers are `clock 0`, `clock 1`, and so on within one `advance`.
use cli_bridge.Common.{
  ℕ, zero, suc, ◌*◌, Bool, true, false, ◌&&◌, ◌||◌, String, Option, none, some, List, [], ◌∷◌,
  if◌then◌else◌, leb, ◌==◌, nat_eq, string_eq, or_else, all, any, find, includes, truthy,
}
use cli_bridge.Goals.Model.{
  GoalStatus, PlanStatus, StepStatus, StepKind, Tier, PlanStep, Plan, goal_status_eq,
  plan_status_eq, step_status_eq, tier_eq,
}
use cli_bridge.Goals.Store.{Store, get_plan_by_goal}
use cli_bridge.Goals.Steps.{
  next_runnable_step, is_done, mark_step_running, block_step_for_gate, complete_step, fail_step,
  get_goal,
}

pub record Orchestrator : Type 0 where
  pub store : Store
  pub step_ceiling : ℕ
  pub steps_run : ℕ

pub record AdvanceStepOptions : Type 0 where
  pub simulate_failure : Option String
  pub output : Option String

-- The reasons are the texts of the source; a status or an identifier that stands in one is an argument.
pub data NoopReason : Type 0 where
  goal_not_found goal_cancelled goal_failed plan_not_found plan_cancelled : NoopReason
  all_runnable_steps_are_gated no_runnable_step : NoopReason
  goal_status : GoalStatus → NoopReason
  plan_status : PlanStatus → NoopReason
  failed_to_block_step failed_to_mark_step_running : String → NoopReason

-- The reason of a tier violation is a text on its other fields, and is left out.
pub data AdvanceResult : Type 0 where
  step_completed : String → StepKind → ℕ → Option String → AdvanceResult
  step_gated : String → StepKind → ℕ → AdvanceResult
  step_failed : String → StepKind → ℕ → String → AdvanceResult
  plan_completed : AdvanceResult
  ceiling_reached : ℕ → AdvanceResult
  tier_violation : String → ℕ → Tier → List Tier → AdvanceResult
  noop : NoopReason → AdvanceResult

-- The answer when the goal's status does not allow an advance.
abbrev pub goal_refusal : GoalStatus → Option AdvanceResult
goal_refusal GoalStatus.cancelled = some (noop goal_cancelled)
goal_refusal GoalStatus.done = some plan_completed
goal_refusal GoalStatus.failed = some (noop goal_failed)
goal_refusal GoalStatus.approved = none
goal_refusal GoalStatus.executing = none
goal_refusal GoalStatus.draft = some (noop (goal_status GoalStatus.draft))
goal_refusal GoalStatus.planned = some (noop (goal_status GoalStatus.planned))
goal_refusal GoalStatus.paused = some (noop (goal_status GoalStatus.paused))

abbrev pub plan_refusal : PlanStatus → Option AdvanceResult
plan_refusal PlanStatus.cancelled = some (noop plan_cancelled)
plan_refusal PlanStatus.done = some plan_completed
plan_refusal PlanStatus.approved = none
plan_refusal PlanStatus.executing = none
plan_refusal PlanStatus.draft = some (noop (plan_status PlanStatus.draft))
plan_refusal PlanStatus.awaiting_approval = some (noop (plan_status PlanStatus.awaiting_approval))
plan_refusal PlanStatus.paused = some (noop (plan_status PlanStatus.paused))

abbrev pub is_failed : PlanStep → Bool
is_failed step = step.status == StepStatus.failed

abbrev pub is_blocked : PlanStep → Bool
is_blocked step = step.status == StepStatus.blocked_needs_gate

abbrev pub needs_gate : PlanStep → Bool
needs_gate step = step.is_state_mutating && step.status == StepStatus.pending

-- The answer when no step can run.
unfoldable pub idle : Plan → AdvanceResult
idle plan =
    if all is_done plan.steps
    then plan_completed
    else noop (
        if any is_blocked plan.steps || any needs_gate plan.steps
        then all_runnable_steps_are_gated
        else no_runnable_step)

unfoldable pub gate_step : String → (ℕ → ℕ) → PlanStep → Orchestrator → AdvanceResult × Orchestrator
gate_step goal_id clock next o = elim (block_step_for_gate goal_id next.id (clock 0) o.store) [
  | none ↦ (noop (failed_to_block_step next.id), o)
  | some (blocked, s) ↦ (step_gated blocked.id blocked.kind blocked.index, record o { store = s })
]

-- What became of the step that is running: completed, or failed when the caller asks for a failure.
unfoldable pub finish_step :
    String → AdvanceStepOptions → (ℕ → ℕ) → PlanStep → Orchestrator → AdvanceResult × Orchestrator
finish_step goal_id options clock next o = elim (truthy options.simulate_failure) [
  | some reason ↦ elim (fail_step goal_id next.id reason (clock 1) o.store) [
    | none ↦ (step_failed next.id next.kind next.index reason, o)
    | some (failed, s) ↦ (
      step_failed next.id next.kind next.index (or_else failed.failure_reason reason),
      record o { store = s },
    )
  ]
  | none ↦ elim (complete_step goal_id next.id options.output (clock 1) o.store) [
    | none ↦ (step_completed next.id next.kind next.index none, o)
    | some (completed, s) ↦
        (step_completed next.id next.kind next.index completed.output, record o { store = s })
  ]
]

unfoldable pub run_step :
    String → AdvanceStepOptions → (ℕ → ℕ) → PlanStep → Orchestrator → AdvanceResult × Orchestrator
unfolding finish_step
run_step goal_id options clock next o = elim (mark_step_running goal_id next.id (clock 0) o.store) [
  | none ↦ (noop (failed_to_mark_step_running next.id), o)
  | some (running, s) ↦
      finish_step goal_id options clock next (record o { store = s; steps_run = suc o.steps_run })
]

-- Ceiling, tier and gate, in this order.
unfoldable pub attempt_step :
    String
    → AdvanceStepOptions
    → (ℕ → ℕ)
    → Plan
    → PlanStep
    → Orchestrator
    → AdvanceResult × Orchestrator
unfolding gate_step run_step
attempt_step goal_id options clock plan next o =
    if leb o.step_ceiling o.steps_run
    then (ceiling_reached o.step_ceiling, o)
    else (if includes next.tier plan.permitted_tiers
        then (if needs_gate next
            then gate_step goal_id clock next o
            else run_step goal_id options clock next o)
        else (tier_violation next.id next.index next.tier plan.permitted_tiers, o))

unfoldable pub advance_plan :
    String → AdvanceStepOptions → (ℕ → ℕ) → Plan → Orchestrator → AdvanceResult × Orchestrator
unfolding idle attempt_step
advance_plan goal_id options clock plan o = elim (find is_failed plan.steps) [
  | some step ↦
      (step_failed step.id step.kind step.index (or_else step.failure_reason "unknown"), o)
  | none ↦ elim (next_runnable_step goal_id o.store) [
    | none ↦ (idle plan, o)
    | some next ↦ attempt_step goal_id options clock plan next o
  ]
]

unfoldable pub advance :
    String → AdvanceStepOptions → (ℕ → ℕ) → Orchestrator → AdvanceResult × Orchestrator
unfolding advance_plan
advance goal_id options clock o = elim (get_goal goal_id o.store) [
  | none ↦ (noop goal_not_found, o)
  | some goal ↦ elim (goal_refusal goal.status) [
    | some refused ↦ (refused, o)
    | none ↦ elim (get_plan_by_goal goal_id o.store) [
      | none ↦ (noop plan_not_found, o)
      | some plan ↦ elim (plan_refusal plan.status) [
        | some refused ↦ (refused, o)
        | none ↦ advance_plan goal_id options clock plan o
      ]
    ]
  ]
]

-- The results after which `runAll` goes on.
abbrev pub goes_on : AdvanceResult → Bool
goes_on (step_completed id kind index output) = true
goes_on _ = false

-- `clock i` is the clock of the `i`-th advance.
unfoldable pub run_loop :
    ℕ
    → String
    → AdvanceStepOptions
    → (ℕ → ℕ → ℕ)
    → ℕ
    → Orchestrator
    → List AdvanceResult × Orchestrator
run_loop zero goal_id options clock i o = ([], o)
run_loop (suc fuel) goal_id options clock i o =
    let (result, o') = advance goal_id options (clock i) o in
    let (results, o'') = run_loop fuel goal_id options clock (suc i) o' in
    if goes_on result then (result ∷ results, o'') else (result ∷ [], o')

unfoldable pub run_all :
    String → AdvanceStepOptions → (ℕ → ℕ → ℕ) → Orchestrator → List AdvanceResult × Orchestrator
unfolding run_loop
run_all goal_id options clock o = run_loop (o.step_ceiling * 2) goal_id options clock 0 o
