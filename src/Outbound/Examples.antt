-- ===== src/Outbound/Examples.antt =====
-- The theorems about outbound prompts at a small store: one prompt created at 10, claimed at 20.
use cli_bridge.Common.{
  ◌+◌, ◌≡◌, refl, true, Option, none, some, [], ◌∷◌, arith, nat_eq, string_eq, any, get, set,
  values, map_values, sort_by, is_blank,
}
use cli_bridge.Outbound.Prompts.{OutboundStatus, claimed, delivered, status_eq, OutboundPrompt}
use mathlib.Core.Option
use cli_bridge.Services.Packets.{create_packet, create_and_append}
use cli_bridge.Services.Redaction.{redact_sensitive_content}
use cli_bridge.Outbound.Store.{
  Store, CreateInput, create, new_prompt, keep_prompt, recover_prompt, is_pending,
}
use cli_bridge.Outbound.Delivery.{
  AcknowledgeInput, claim_next, acknowledge, cancel, cancel_prompt, claim_prompt,
}
use cli_bridge.Outbound.Calls.{HasKeys, Advances, step, creates, claims, submits, cancels, run}
use cli_bridge.Outbound.Prompts.{validate_outbound_prompt}
use cli_bridge.Services.Examples.{fresh_services}
use cli_bridge.Outbound.Histories.{step-Advances, step-HasKeys, run_terminal}
use cli_bridge.Outbound.Queue.{Serves, claim_next-Serves}
use cli_bridge.Outbound.Tokens.{Settles, acknowledge-Settles, acknowledge_once, acknowledge_late}
use cli_bridge.Outbound.Creation.{Creates, create-Creates}
use cli_bridge.Outbound.Reports.{create_status_view, count}
use cli_bridge.Outbound.Counts.{listed, create_status_view-total}

abbrev pub empty_store : Store
empty_store = record { services = fresh_services; prompts = [] }

abbrev pub question : CreateInput
question = record {
  id = some "a";
  session_id = "s1";
  prompt = "Bearer abc";
  endpoint_id = none;
  loop_id = some "";
  expires_in = none;
}

abbrev created_at_ten : Store
created_at_ten = step empty_store (10, creates question)

abbrev claimed_at_twenty : Store
claimed_at_twenty = step created_at_ten (20, claims)

abbrev cancelled_at_thirty : Store
cancelled_at_thirty = step claimed_at_twenty (30, cancels "a")

abbrev receipt : AcknowledgeInput
receipt = record { id = "a"; claim_token = "uII"; ok = true; failure_reason = none }

status_of : Option OutboundPrompt → Option OutboundStatus
status_of = Option.map λ (p : OutboundPrompt). p.status

claims_it : status_of (get "a" claimed_at_twenty.prompts) ≡ some claimed
unfolding status_of step create claim_next create_packet redact_sensitive_content get set sort_by
    map_values validate_outbound_prompt is_blank new_prompt keep_prompt create_and_append
    claim_prompt recover_prompt
claims_it = refl

created_HasKeys : HasKeys created_at_ten
unfolding get
created_HasKeys = step-HasKeys empty_store (10, creates question) tt refl

claimed_HasKeys : HasKeys claimed_at_twenty
claimed_HasKeys = step-HasKeys created_at_ten (20, claims) created_HasKeys tt

cancelled_HasKeys : HasKeys cancelled_at_thirty
cancelled_HasKeys = step-HasKeys claimed_at_twenty (30, cancels "a") claimed_HasKeys tt

step-Advances_example :
    Advances (get "a" created_at_ten.prompts) (get "a" (step created_at_ten (20, claims)).prompts)
step-Advances_example = step-Advances created_at_ten (20, claims) "a" created_HasKeys tt

run_terminal_example :
    get "a" (run cancelled_at_thirty ((40, claims) ∷ (50, submits "a") ∷ [])).prompts
    ≡ get "a" cancelled_at_thirty.prompts
unfolding cancel cancel_prompt step create claim_next create_packet redact_sensitive_content get set
    sort_by map_values validate_outbound_prompt is_blank new_prompt keep_prompt create_and_append
    claim_prompt recover_prompt
run_terminal_example =
    run_terminal cancelled_at_thirty ((40, claims) ∷ (50, submits "a") ∷ []) "a" _ cancelled_HasKeys
      (tt, (tt, tt)) refl refl

claim_next-Serves_example : Serves 20 created_at_ten (claim_next 20 created_at_ten)
claim_next-Serves_example = claim_next-Serves 20 created_at_ten created_HasKeys

acknowledge-Settles_example :
    Settles receipt claimed_at_twenty (acknowledge receipt 30 claimed_at_twenty)
acknowledge-Settles_example = acknowledge-Settles receipt 30 claimed_at_twenty claimed_HasKeys

acknowledge_once_example :
    acknowledge receipt 40 (acknowledge receipt 30 claimed_at_twenty).1
    ≡ (none, (acknowledge receipt 30 claimed_at_twenty).1)
unfolding acknowledge step create claim_next create_packet redact_sensitive_content get set sort_by
    map_values validate_outbound_prompt is_blank new_prompt keep_prompt create_and_append
    claim_prompt recover_prompt
acknowledge_once_example =
    acknowledge_once receipt receipt 30 40 claimed_at_twenty _ claimed_HasKeys refl refl

acknowledge_late_example :
    acknowledge receipt 70000 (claim_next 60021 claimed_at_twenty).1
    ≡ (none, (claim_next 60021 claimed_at_twenty).1)
unfolding step create claim_next create_packet redact_sensitive_content get set sort_by map_values
    validate_outbound_prompt is_blank new_prompt keep_prompt create_and_append claim_prompt
    recover_prompt
acknowledge_late_example =
    acknowledge_late receipt 60021 70000 20 claimed_at_twenty _ claimed_HasKeys refl refl refl
      (omega arith)

create-Creates_example : Creates question 10 empty_store (create question 10 empty_store)
create-Creates_example = create-Creates question 10 empty_store

create_status_view-total_example :
    let v = create_status_view claimed_at_twenty in
    (v.total ≡ listed v + count delivered (values claimed_at_twenty.prompts))
    × (v.active
        ≡ any (λ (p : OutboundPrompt). is_pending p.status) (values claimed_at_twenty.prompts))
create_status_view-total_example = create_status_view-total claimed_at_twenty
