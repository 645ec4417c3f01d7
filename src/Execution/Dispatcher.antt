-- ===== src/Execution/Dispatcher.antt =====
-- `dispatchExecutionProposal`, cut at its `await`: what runs until a command is under way, and what runs
-- when the command has ended. Other operations on the proposals may run between the two.
use cli_bridge.Common.{
  Attempt, made, thrown, ℕ, Bool, true, false, not, ◌&&◌, String, Option, none, some, List, [], ◌∷◌,
  if◌then◌else◌, ◌==◌, nat_eq, string_eq, or_else, find,
}
use cli_bridge.Proposals.Model.{
  confirmed, execution_proposal_status_eq, Command, codex, claude, artifact_kind_eq, RunResult,
  ExecutionProposal,
}
use cli_bridge.Proposals.Store.{Store}
use cli_bridge.Proposals.Operations.{mark_dispatching, mark_returned, pause, cancel, get_proposal}
use cli_bridge.Goals.Model.{PlanStatus, plan_status_eq, Plan, PlanStep}
use cli_bridge.Goals.Steps.{has_id}
use cli_bridge.Bindings.Model.{RunEndpointBinding}
use cli_bridge.Execution.Capabilities.{Capability}

pub record DispatchInput : Type 0 where
  pub proposal_id : String
  pub binding : RunEndpointBinding
  pub plan : Plan
  pub provider_capability : Option Capability
  -- Is an adapter for WorkBuddy given?
  pub workbuddy : Bool
  pub working_directory : String
  pub timeout_ms : Option ℕ

pub record DispatchResult : Type 0 where
  pub ok : Bool
  pub failure_reason : Option String
  pub proposal : Option ExecutionProposal

-- How a refusal leaves the proposal: as it was, paused, or cancelled.
pub data Refusal : Type 0 where
  tells pauses cancels : String → Refusal

abbrev pub Test : Type 0
Test = Bool × Refusal

-- The refusal of the first test that fails.
unfoldable pub first_refusal : List Test → Option Refusal
first_refusal [] = none
first_refusal ((passed, refusal) ∷ tests) = if passed then first_refusal tests else some refusal

abbrev pub can_execute : Option Capability → Bool
can_execute none = false
can_execute (some cap) = cap.can_execute

abbrev pub provides : String → Option Capability → Bool
provides endpoint_id none = false
provides endpoint_id (some cap) = cap.endpoint_id == endpoint_id

abbrev pub targets : String → Option PlanStep → Bool
targets endpoint_id none = false
targets endpoint_id (some step) = step.target_endpoint_id == endpoint_id

-- The tests that every dispatch has to pass, in their order.
abbrev pub dispatch_tests : DispatchInput → ExecutionProposal → List Test
dispatch_tests input p =
    (p.status == confirmed, tells "proposal-not-confirmed")
    ∷ (not (input.plan.status == PlanStatus.paused), pauses "plan-paused")
    ∷ (not (input.plan.status == PlanStatus.cancelled), cancels "plan-cancelled")
    ∷ (
      p.plan_id == input.binding.plan_id
          && p.goal_id == input.binding.goal_id
          && p.binding_hash == input.binding.binding_hash,
      pauses "proposal-binding-mismatch",
    )
    ∷ (
      p.execution_endpoint_id == input.binding.execution_endpoint_id,
      pauses "proposal-endpoint-mismatch",
    )
    ∷ (can_execute input.provider_capability, tells "execution-endpoint-cannot-execute")
    ∷ (
      provides input.binding.execution_endpoint_id input.provider_capability,
      pauses "provider-endpoint-mismatch",
    )
    ∷ (
      targets p.execution_endpoint_id (find (has_id p.step_id) input.plan.steps),
      pauses "proposal-step-mismatch",
    )
    ∷ []

abbrev pub claude_review_args : List String
claude_review_args =
    "-p" ∷ "--output-format" ∷ "json" ∷ "--tools" ∷ "" ∷ "--disallowed-tools"
    ∷ "Bash,Edit,Write,Read,WebFetch,WebSearch" ∷ "--permission-mode" ∷ "plan"
    ∷ "--no-session-persistence" ∷ []

abbrev pub codex_review_args : List String
codex_review_args = "exec" ∷ "-s" ∷ "read-only" ∷ "--json" ∷ "--ephemeral" ∷ "-" ∷ []

abbrev pub same_texts : List String → List String → Bool
same_texts [] [] = true
same_texts [] (y ∷ ys) = false
same_texts (x ∷ xs) [] = false
same_texts (x ∷ xs) (y ∷ ys) = x == y && same_texts xs ys

abbrev is_codex : Command → Bool
is_codex codex = true
is_codex claude = false

-- `validateExecutionInvocation`
unfoldable pub invocation_failure : Option Capability → Command → List String → Option String
invocation_failure none command args = some "execution-endpoint-cannot-execute"
invocation_failure (some cap) command args =
    if cap.can_execute
    then (if cap.kind == "codex"
        then (if is_codex command
            then (if same_texts args codex_review_args then none else some "proposal-argv-mismatch")
            else some "proposal-command-mismatch")
        else (if cap.kind == "claude"
            then (if is_codex command
                then some "proposal-command-mismatch"
                else (if same_texts args claude_review_args
                    then none
                    else some "proposal-argv-mismatch"))
            else some "proposal-command-mismatch"))
    else some "execution-endpoint-cannot-execute"

-- A command that is under way, and a task for the inbox of WorkBuddy.
pub record CommandRun : Type 0 where
  pub proposal_id : String
  pub command : Command
  pub args : List String
  pub stdin : String

pub record Task : Type 0 where
  pub endpoint_id : String
  pub proposal_id : String
  pub plan_id : String
  pub goal_id : String
  pub binding_hash : String
  pub prompt : String
  pub working_directory : String
  pub timeout_ms : Option ℕ

pub data Begun : Type 0 where
  ended : Attempt DispatchResult → Begun
  runs : CommandRun → Begun
  enqueued : Task → DispatchResult → Begun

-- `{ ok: false, failureReason, proposal: store.pause(…) }`
unfoldable pub give_up : String → Attempt ExecutionProposal × Store → Begun × Store
give_up reason (thrown es, s) = (ended (thrown es), s)
give_up reason (made p, s) =
    (ended (made (record { ok = false; failure_reason = some reason; proposal = some p })), s)

unfoldable pub refuse_with : Refusal → ExecutionProposal → ℕ → Store → Begun × Store
unfolding give_up
refuse_with (tells reason) p now s = give_up reason (made p, s)
refuse_with (pauses reason) p now s = give_up reason (pause p.id reason now s)
refuse_with (cancels reason) p now s = give_up reason (cancel p.id now s)

-- What follows `markDispatching`, unless it throws.
unfoldable pub hand_over : (Store → Begun) → Attempt ExecutionProposal × Store → Begun × Store
hand_over next (thrown es, s) = (ended (thrown es), s)
hand_over next (made p, s) = (next s, s)

abbrev pub command_of : ExecutionProposal → CommandRun
command_of p = record { proposal_id = p.id; command = p.command; args = p.args; stdin = p.stdin }

abbrev pub task_of : DispatchInput → ExecutionProposal → Task
task_of input p = record {
  endpoint_id = input.binding.execution_endpoint_id;
  proposal_id = p.id;
  plan_id = input.binding.plan_id;
  goal_id = input.binding.goal_id;
  binding_hash = input.binding.binding_hash;
  prompt = p.stdin;
  working_directory = input.working_directory;
  timeout_ms = input.timeout_ms;
}

unfoldable pub run_command : DispatchInput → ExecutionProposal → ℕ → Store → Begun × Store
unfolding invocation_failure refuse_with hand_over
run_command input p now s = elim (invocation_failure input.provider_capability p.command p.args) [
  | some reason ↦ refuse_with (pauses reason) p now s
  | none ↦ hand_over (λ t. runs (command_of p)) (mark_dispatching p.id now s)
]

abbrev pub enqueued_in : DispatchInput → ExecutionProposal → Store → Begun
enqueued_in input p t =
    enqueued (task_of input p)
      (record { ok = true; failure_reason = none; proposal = get_proposal input.proposal_id t })

unfoldable pub enqueue : DispatchInput → ExecutionProposal → ℕ → Store → Begun × Store
unfolding refuse_with hand_over
enqueue input p now s =
    if input.workbuddy
    then hand_over (enqueued_in input p) (mark_dispatching p.id now s)
    else refuse_with (pauses "workbuddy-adapter-not-configured") p now s

abbrev pub is_workbuddy : Option Capability → Bool
is_workbuddy none = false
is_workbuddy (some cap) = cap.kind == "workbuddy"

unfoldable pub start : DispatchInput → ExecutionProposal → ℕ → Store → Begun × Store
unfolding first_refusal refuse_with run_command enqueue
start input p now s = elim (first_refusal (dispatch_tests input p)) [
  | some refusal ↦ refuse_with refusal p now s
  | none ↦
      if is_workbuddy input.provider_capability
      then enqueue input p now s
      else run_command input p now s
]

unfoldable pub begin_dispatch : DispatchInput → ℕ → Store → Begun × Store
unfolding start
begin_dispatch input now s = elim (get_proposal input.proposal_id s) [
  | none ↦ (
    ended
        (made (record { ok = false; failure_reason = some "proposal-not-found"; proposal = none })),
    s,
  )
  | some p ↦ start input p now s
]

-- How the command ended: with its result, or with the reason of its failure.
pub data Ending : Type 0 where
  succeeded : RunResult → Ending
  broke : Option String → Ending

unfoldable pub finished : Attempt ExecutionProposal × Store → Attempt DispatchResult × Store
finished (thrown es, s) = (thrown es, s)
finished (made p, s) = (made (record { ok = true; failure_reason = none; proposal = some p }), s)

unfoldable pub gave_up : String → Attempt ExecutionProposal × Store → Attempt DispatchResult × Store
gave_up reason (thrown es, s) = (thrown es, s)
gave_up reason (made p, s) =
    (made (record { ok = false; failure_reason = some reason; proposal = some p }), s)

-- At the time when the command has ended.
unfoldable pub finish_dispatch : CommandRun → Ending → ℕ → Store → Attempt DispatchResult × Store
unfolding finished gave_up
finish_dispatch run (succeeded result) now s = finished (mark_returned run.proposal_id result now s)
finish_dispatch run (broke reason) now s =
    let why = or_else reason "execution-dispatch-failed" in
    gave_up why (pause run.proposal_id why now s)
