-- ===== src/Execution/Examples.antt =====
-- A review by the command of Codex, and providers that are and are not fit.
use cli_bridge.Common.{get, set, thrown}
use cli_bridge.Proposals.Again.{paused_proposal}
use cli_bridge.Execution.Dispatcher.{broke}
use cli_bridge.Proposals.Operations.{pause}
use cli_bridge.Common.{
  ℕ, ◌≡◌, refl, true, false, String, none, some, [], ◌∷◌, nat_eq, string_eq, get,
}
use cli_bridge.Proposals.Model.{
  confirmed, execution_proposal_status_eq, artifact_kind_eq, ExecutionProposal,
  validate_execution_proposal,
}
use cli_bridge.Proposals.Store.{Store}
use cli_bridge.Proposals.Operations.{mark_dispatching, get_proposal}
use cli_bridge.Execution.Capabilities.{Capability, validate_provider_capability}
use cli_bridge.Execution.Dispatcher.{
  DispatchInput, codex_review_args, runs, begin_dispatch, finish_dispatch,
}
use cli_bridge.Execution.Dispatcher.{command_of}
use cli_bridge.Goals.Model.{plan_status_eq}
use cli_bridge.Execution.Dispatcher.{finish_dispatch}
use cli_bridge.Execution.Handing.{begin_dispatch-Hands, Hands}
use cli_bridge.Execution.Ending.{begin_dispatch-finish_dispatch, EndsAs}
use cli_bridge.Proposals.Again.{dispatched_proposal, stored}
use cli_bridge.Proposals.Store.{new_proposal}
use cli_bridge.Proposals.Examples.{plan, platform}
use cli_bridge.Proposals.Examples.{input as drafted, dispatched as marked}

show_number : ℕ → String
show_number n = "n"

abbrev codex_capability : Capability
codex_capability = record {
  provider = "codex";
  provider_id = "codex";
  endpoint_id = "e";
  kind = "codex";
  label = "Codex";
  can_execute = true;
  can_review = true;
  can_propose_patch = true;
  can_verify = true;
  can_use_model_api = false;
  bridge_governed_parallel_slots = false;
  max_concurrent_bridge_slots = 1;
  isolation_modes = "patch-only" ∷ [];
  supported_isolations = "patch-only" ∷ [];
  supported_modes = "sequential" ∷ [];
}

accepts :
    validate_provider_capability show_number "codex" "sequential" "patch-only" 1
      (some "codex-command")
    ≡ []
unfolding validate_provider_capability get
accepts = refl

refuses :
    validate_provider_capability show_number "claude" "parallel" "patch-only" 2 none
    ≡ "Provider does not support mode: parallel" ∷ "Requested n slots, provider supports n" ∷ []
unfolding validate_provider_capability show_number get
refuses = refl

abbrev waiting : ExecutionProposal
waiting = record marked { status = confirmed; args = codex_review_args }

abbrev at_hand : Store
at_hand = record { platform = platform; drawn = 2; proposals = ("u", waiting) ∷ [] }

abbrev request : DispatchInput
request = record {
  proposal_id = "u";
  binding = drafted.binding;
  plan = plan;
  provider_capability = some codex_capability;
  workbuddy = false;
  working_directory = "w";
  timeout_ms = none;
}

abbrev under_way : Store
under_way = stored (dispatched_proposal 90 waiting) at_hand

starts : begin_dispatch request 90 at_hand ≡ (runs (command_of waiting), under_way)
unfolding begin_dispatch get_proposal get new_proposal mark_dispatching validate_execution_proposal
starts = refl

begin_dispatch-Hands_example : Hands request 90 at_hand (runs (command_of waiting), under_way)
unfolding begin_dispatch get_proposal get new_proposal mark_dispatching validate_execution_proposal
begin_dispatch-Hands_example = begin_dispatch-Hands request 90 at_hand (refl, refl, tt)

-- The proposal was paused while its command was under way.
abbrev paused_meanwhile : ExecutionProposal
paused_meanwhile = paused_proposal "wait" 92 (dispatched_proposal 90 waiting)

begin_dispatch-finish_dispatch_example :
    (get "u" under_way.proposals ≡ some (dispatched_proposal 90 waiting))
    × EndsAs (broke (some "exit-code-1")) 95 paused_meanwhile (stored paused_meanwhile under_way) (
        finish_dispatch
          (command_of waiting)
          (broke (some "exit-code-1"))
          95
          (stored paused_meanwhile under_way))
unfolding validate_execution_proposal get new_proposal set
begin_dispatch-finish_dispatch_example =
    begin_dispatch-finish_dispatch request (command_of waiting) (broke (some "exit-code-1")) 90 95
      waiting paused_meanwhile at_hand under_way (stored paused_meanwhile under_way)
      (refl, refl, tt) refl starts refl refl refl

-- The failure of the command is lost.
loses_failure :
    (finish_dispatch
      (command_of waiting)
      (broke (some "exit-code-1"))
      95
      (stored paused_meanwhile under_way)).0
    ≡ thrown ("proposal-not-pausable" ∷ [])
unfolding finish_dispatch pause get set new_proposal
loses_failure = refl
