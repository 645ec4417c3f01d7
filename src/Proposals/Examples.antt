-- ===== src/Proposals/Examples.antt =====
-- A proposal that is drafted, confirmed, paused, resumed and dispatched.
use cli_bridge.Common.{sort_by}
use cli_bridge.Bindings.Model.{EndpointRef}
use cli_bridge.Endpoints.Model.{EndpointTransport}
use cli_bridge.Common.{
  true, made, ℕ, ◌≡◌, refl, inl, false, none, some, List, [], ◌∷◌, nat_eq, string_eq, get, set,
}
use cli_bridge.Proposals.Model.{
  dispatching, execution_proposal_status_eq, codex, execution_proposal, artifact_kind_eq,
  ExecutionProposal, validate_execution_proposal,
}
use cli_bridge.Proposals.Store.{
  Platform, Store, CreateInput, create_draft, draft_error, new_proposal,
}
use cli_bridge.Proposals.Operations.{
  ConfirmInput, request_confirmation, confirm, mark_dispatching, pause, resume, mismatch,
}
use cli_bridge.Proposals.Calls.{
  empty, Call, drafts, requests, confirms, dispatches, pauses, resumes, run, grants,
}
use cli_bridge.Goals.Model.{Plan, PlanStep, PlanStatus, StepStatus, StepKind, patch_proposal}
use cli_bridge.Proposals.Confirming.{Granted}
use cli_bridge.Proposals.Dispatch.{run-Granted}
use cli_bridge.Proposals.Commands.{forbidden_arg}
use cli_bridge.Proposals.Drafting.{create_draft-Drafted, Drafted}
use cli_bridge.Proposals.Again.{pause-resume-mark_dispatching}
use cli_bridge.Proposals.Queries.{get_current-IsCurrent, IsCurrent, get_current}
use cli_bridge.Services.Examples.{tally}

forbids : forbidden_arg ("--verbose" ∷ "--Danger-Full-Access" ∷ []) ≡ some "danger-full-access"
unfolding forbidden_arg
forbids = refl

abbrev review_step : PlanStep
review_step = record {
  id = "t";
  plan_id = "p";
  index = 0;
  intent = "review";
  kind = StepKind.review;
  target_endpoint_id = "e";
  tier = patch_proposal;
  is_state_mutating = false;
  status = StepStatus.pending;
  output = none;
  failure_reason = none;
}

abbrev pub plan : Plan
plan = record {
  id = "p";
  goal_id = "g";
  parent_plan_id = none;
  steps = review_step ∷ [];
  status = PlanStatus.approved;
  permitted_tiers = patch_proposal ∷ [];
  created_at = 0;
  updated_at = 0;
  approved_at = some 0;
  paused_at = none;
  pause_reason = none;
}

abbrev endpoint : EndpointRef
endpoint = record {
  id = "e";
  label = "E";
  transport = EndpointTransport.command;
  can_execute = true;
}

abbrev pub input : CreateInput
input = record {
  binding = record {
    goal_id = "g";
    plan_id = "p";
    parent_plan_id = none;
    reasoning_endpoint_id = "e";
    execution_endpoint_id = "e";
    reasoning_endpoint = endpoint;
    execution_endpoint = endpoint;
    reasoning_tier = "high";
    execution_tier = "low";
    execution_permission_profile = "patch-proposal";
    execution_working_directory_ref = "d";
    max_steps = 5;
    max_reasoning_rounds = 5;
    deadline_at = "2030-01-01";
    created_at = 0;
    updated_at = 0;
    binding_hash = "sha256:b";
    locked_at = some 0;
  };
  plan = plan;
  step_id = "t";
  artifact = record {
    artifact_id = "a";
    goal_id = "g";
    plan_id = "p";
    kind = execution_proposal;
    content_hash = "sha256:a";
  };
  preview = "look";
  command = codex;
  args = [];
  stdin = "";
  expires_at = 100;
  supersedes_proposal_id = none;
}

-- The digest is the same for all texts.
abbrev pub platform : Platform
platform = record { uuid = tally; sha256_hex = λ s. "h"; json_string = λ s. s }

abbrev agreement : ConfirmInput
agreement = record {
  proposal_id = "u";
  plan_id = "p";
  step_id = "t";
  artifact_id = "a";
  content_hash = "sha256:h";
  binding_hash = "sha256:b";
  execution_endpoint_id = "e";
  execution_permission_profile = "patch-proposal";
  project_id = "d";
}

abbrev calls : List (ℕ × Call)
calls =
    (10, drafts input)
    ∷ (20, requests "u")
    ∷ (30, confirms agreement)
    ∷ (40, pauses "u" "wait")
    ∷ (50, resumes "u")
    ∷ (60, dispatches "u")
    ∷ []

abbrev pub dispatched : ExecutionProposal
dispatched = record (new_proposal input "u" 10 platform) {
  status = dispatching;
  updated_at = 60;
  confirmation_nonce = some "uI";
  confirmed_at = some 30;
  paused_at = some 40;
  dispatching_at = some 60;
}

run-Granted_example : Granted (grants calls []) dispatched
unfolding run create_draft request_confirmation confirm pause resume mark_dispatching get set
    new_proposal draft_error forbidden_arg validate_execution_proposal mismatch
run-Granted_example = run-Granted platform calls dispatched (inl refl) refl

abbrev pub under_way : Store
under_way = record { platform = platform; drawn = 2; proposals = ("u", dispatched) ∷ [] }

pause-resume-mark_dispatching_example :
    (mark_dispatching "u" 90 (resume "u" 80 (pause "u" "wait" 70 under_way).1).1).0
    ≡ made (record dispatched {
      status = dispatching;
      paused_at = some 70;
      failure_reason = none;
      dispatching_at = some 90;
      updated_at = 90;
    })
unfolding get validate_execution_proposal new_proposal
pause-resume-mark_dispatching_example =
    pause-resume-mark_dispatching "wait" 30 70 80 90 dispatched under_way refl refl refl refl

create_draft-Drafted_example :
    Drafted input (create_draft input 10 (empty platform)).1 (new_proposal input "u" 10 platform)
unfolding create_draft draft_error forbidden_arg validate_execution_proposal get set
create_draft-Drafted_example =
    create_draft-Drafted input 10 (empty platform) (new_proposal input "u" 10 platform) refl

get_current-IsCurrent_example :
    IsCurrent (record { plan_id = some "p"; goal_id = none }) under_way (some dispatched)
unfolding get_current cli_bridge.Common.sort_by new_proposal
get_current-IsCurrent_example =
    get_current-IsCurrent (record { plan_id = some "p"; goal_id = none }) under_way
