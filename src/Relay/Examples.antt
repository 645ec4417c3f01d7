-- ===== src/Relay/Examples.antt =====
-- A relay loop of two rounds.
use cli_bridge.Common.{
  Attempt, made, thrown, suc, ◌≡◌, refl, ◌⊎◌, inl, true, String, none, some, [], ◌∷◌, nat_eq,
  string_eq, or_else, length, get, set, is_blank,
}
use cli_bridge.Outbound.Store as Outbound
use cli_bridge.Outbound.Prompts.{OutboundStatus, OutboundPrompt}
use cli_bridge.Outbound.Store.{
  create as create_outbound, Store as OutboundStore, CreateInput as OutboundInput,
}
use cli_bridge.Outbound.Reports.{get_prompt}
use cli_bridge.Services.Packets.{id_or_uuid}
use cli_bridge.Relay.Model.{
  done, web_relay_loop_status_eq, WebRelayLoop, validate_web_relay_loop, is_terminal,
}
use cli_bridge.Relay.Store.{
  cancel, Store, CreateInput, Answer, answer_error, new_loop, create, current_outbound,
}
use cli_bridge.Relay.Advance.{AdvanceInput, observe, advance}
use cli_bridge.Relay.Calls.{creates, resumes, recovers, advances, run, empty}
use cli_bridge.Outbound.Prompts.{validate_outbound_prompt}
use cli_bridge.Services.Packets.{create_packet}
use cli_bridge.Services.Redaction.{redact_sensitive_content}
use cli_bridge.Relay.Rounds.{run-Core}
use cli_bridge.Relay.Bounds.{Core}
use cli_bridge.Relay.Opening.{Continues}
use cli_bridge.Relay.Continues.{advance-Continues}
use cli_bridge.Relay.Cancelling.{Cancels, cancel-cancel_prompt}
use cli_bridge.Relay.Histories.{run_terminal_loop}
use cli_bridge.Services.Examples.{fresh_services}

abbrev no_prompts : OutboundStore
no_prompts = record { services = fresh_services; prompts = [] }

abbrev question : CreateInput
question = record {
  id = some "l";
  project_id = "p";
  goal_id = "g";
  session_id = "s";
  endpoint_id = "e";
  initial_prompt = "first";
  max_rounds = some 2;
  per_round_timeout_ms = none;
  total_deadline_ms = none;
  no_progress_limit = none;
}

abbrev started : Store
started = run (empty no_prompts) ((10, creates question) ∷ [])

abbrev blank_loop : WebRelayLoop
blank_loop = new_loop question "none" 0

abbrev loop_of : Store → WebRelayLoop
loop_of s = or_else (get "l" s.loops) blank_loop

started_round : (loop_of started).round ≡ 1
unfolding run create get set create_outbound validate_outbound_prompt is_blank Outbound.new_prompt
    id_or_uuid create_packet redact_sensitive_content validate_web_relay_loop
started_round = refl

abbrev prompt_id : String
prompt_id = or_else (loop_of started).current_outbound_prompt_id ""

prompt_id_drawn : prompt_id ≡ "uI"
unfolding run create get set create_outbound validate_outbound_prompt is_blank Outbound.new_prompt
    id_or_uuid create_packet redact_sensitive_content validate_web_relay_loop Outbound.keep_prompt
prompt_id_drawn = refl

run-Core_example :
    Core (loop_of started)
    × ((is_terminal (loop_of started).status ≡ true)
        ⊎ (suc (length (loop_of started).seen_content_hashes) ≡ (loop_of started).round))
unfolding run create get set create_outbound validate_outbound_prompt is_blank Outbound.new_prompt
    id_or_uuid create_packet redact_sensitive_content validate_web_relay_loop Outbound.keep_prompt
run-Core_example = run-Core no_prompts ((10, creates question) ∷ []) (loop_of started) (inl refl)

-- The loop once its first prompt has returned.
abbrev first_answer : OutboundPrompt
first_answer = record {
  id = "o";
  session_id = "s";
  packet_id = "k";
  prompt = "first";
  status = OutboundStatus.returned;
  loop_id = some "l";
  endpoint_id = some "e";
  created_at = 10;
  updated_at = 20;
  claimed_at = some 12;
  claim_token = none;
  authorization = record { content_hash = "sha256:first"; expires_at = 600010 };
  delivered_at = none;
  waiting_at = none;
  submitted_at = some 15;
  responding_at = some 16;
  response_ready_at = some 17;
  returned_at = some 20;
  completed_at = none;
  expired_at = none;
  failed_at = none;
  cancelled_at = none;
  failure_reason = none;
  evidence = none;
}

abbrev waiting : WebRelayLoop
waiting = record (new_loop question "l" 10) { current_outbound_prompt_id = some "o" }

abbrev returned : Store
returned = record {
  outbound = record { services = fresh_services; prompts = ("o", first_answer) ∷ [] };
  loops = ("l", waiting) ∷ [];
}

abbrev reply : AdvanceInput
reply = record {
  loop_id = "l";
  inbound_content = "an answer";
  progress_hash = none;
  next_prompt = some "second";
}

abbrev answer_of : Attempt Answer → Answer
answer_of (made a) = a
answer_of (thrown es) = answer_error "thrown"

abbrev second_answer : Answer
second_answer = answer_of (advance reply 30 returned).0

abbrev second_prompt : OutboundPrompt
second_prompt = or_else second_answer.outbound_prompt first_answer

advance-Continues_example : Continues reply 30 returned (advance reply 30 returned).1 second_prompt
unfolding run create get set create_outbound validate_outbound_prompt is_blank Outbound.new_prompt
    id_or_uuid create_packet redact_sensitive_content validate_web_relay_loop Outbound.keep_prompt
    advance observe new_loop current_outbound get_prompt
advance-Continues_example =
    advance-Continues reply 30 returned second_answer second_prompt refl refl

abbrev ended : Store
ended = record returned { loops = ("l", record waiting { status = done }) ∷ [] }

run_terminal_loop_example :
    get "l" (run ended ((40, advances reply) ∷ (50, resumes "l") ∷ (60, recovers) ∷ [])).loops
    ≡ some (record waiting { status = done })
unfolding get new_loop
run_terminal_loop_example =
    run_terminal_loop ended ((40, advances reply) ∷ (50, resumes "l") ∷ (60, recovers) ∷ []) "l"
      (record waiting { status = done }) (refl, refl, tt) (tt, (tt, (tt, tt))) refl refl

abbrev asking : OutboundPrompt
asking = record first_answer { status = OutboundStatus.queued }

abbrev unanswered : Store
unanswered = record {
  outbound = record { services = fresh_services; prompts = ("o", asking) ∷ [] };
  loops = ("l", waiting) ∷ [];
}

cancel-cancel_prompt_example : Cancels waiting 50 unanswered (cancel "l" 50 unanswered).1
unfolding get new_loop
cancel-cancel_prompt_example =
    cancel-cancel_prompt "l" 50 waiting unanswered (refl, refl, tt) refl refl
