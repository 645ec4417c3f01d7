-- ===== src/Inbound/Examples.antt =====
-- The theorems about inbound messages at a small store: one reply, for the endpoint "codex".
use cli_bridge.Common.{
  made, ℕ, ◌+◌, ◌≡◌, refl, inr, false, not, none, some, List, [], ◌∷◌, nat_eq, string_eq, length,
  All, get, set, values, sort_by, is_blank,
}
use cli_bridge.Services.Packets.{id_or_uuid, create_packet}
use cli_bridge.Services.Redaction.{redact_sensitive_content}
use cli_bridge.Inbound.Model.{
  queued, claimed, consumed, failed, cancelled, inbound_status_eq, InboundMessage,
  validate_inbound_message,
}
use cli_bridge.Inbound.Store.{
  Store, CreateInput, message_packet, new_message, create, CreateResult, create_idempotent,
  list_messages, export_messages, hydrate_messages,
}
use cli_bridge.Inbound.Delivery.{ClaimInput, claim_message, claim_next, summary}
use cli_bridge.Inbound.Calls.{Call, creates, claims, cancels, step, run, empty, HasKeys}
use cli_bridge.Services.Examples.{fresh_services}
use cli_bridge.Inbound.Mailbox.{view, Simulates}
use cli_bridge.Inbound.Refinement.{step-Simulates}
use cli_bridge.Inbound.Access.{run_kept, step-HasKeys}
use cli_bridge.Inbound.Replays.{IsValid, export-hydrate, summary-list_messages, in_status}
use cli_bridge.Inbound.Repeats.{create_idempotent-again}

abbrev reply : CreateInput
reply = record {
  id = some "m";
  endpoint_id = "codex";
  session_id = "s1";
  content = "Done: Bearer abc";
  source_outbound_prompt_id = some "o";
}

abbrev asked : ClaimInput
asked = record { endpoint_id = "codex"; session_id = some "s1" }

abbrev replied : Store
replied = step (empty fresh_services) (10, creates reply)

abbrev taken : Store
taken = step replied (20, claims asked)

abbrev the_reply : InboundMessage
the_reply = new_message reply (message_packet reply 10 (empty fresh_services)).0 "m" 10

claims_it : get "m" taken.messages ≡ some (claim_message 20 the_reply)
unfolding get step claim_next sort_by create validate_inbound_message is_blank new_message
    id_or_uuid create_packet redact_sensitive_content set
claims_it = refl

there : get "m" replied.messages ≡ some the_reply
unfolding get step create validate_inbound_message is_blank new_message id_or_uuid create_packet
    redact_sensitive_content set
there = refl

replied-HasKeys : HasKeys replied
unfolding get
replied-HasKeys = step-HasKeys (empty fresh_services) (10, creates reply) tt refl

step-Simulates_example :
    Simulates (claims asked) (view replied) (view (step replied (20, claims asked)))
step-Simulates_example = step-Simulates replied 20 (claims asked) replied-HasKeys

-- The attempts of another endpoint.
abbrev foreign : List (ℕ × Call)
foreign =
    (20, claims (record { endpoint_id = "other"; session_id = none }))
    ∷ (30, cancels "m" "other")
    ∷ []

run_kept_example : get "m" (run replied foreign).messages ≡ some the_reply
unfolding new_message
run_kept_example =
    run_kept replied foreign "m" the_reply replied-HasKeys (tt, (tt, tt)) there
      (inr (refl, (refl, tt)))

replied-IsValid : All IsValid (values replied.messages)
unfolding step create validate_inbound_message is_blank new_message id_or_uuid create_packet
    redact_sensitive_content set
replied-IsValid = (refl, tt)

export-hydrate_example :
    ((hydrate_messages (export_messages replied) (empty fresh_services)).0
      ≡ length (values replied.messages))
    × (get "m" (hydrate_messages (export_messages replied) (empty fresh_services)).1.messages
        ≡ get "m" replied.messages)
export-hydrate_example = export-hydrate replied fresh_services "m" replied-HasKeys replied-IsValid

abbrev first_result : CreateResult
first_result = record { message = the_reply; replayed = false; conflict = false }

first_time : create_idempotent reply 10 (empty fresh_services) ≡ (made first_result, replied)
unfolding create_idempotent create validate_inbound_message is_blank new_message id_or_uuid
    create_packet redact_sensitive_content step
first_time = refl

create_idempotent-again_example :
    create_idempotent reply 50 replied
    ≡ (made (record first_result { replayed = not first_result.conflict }), replied)
create_idempotent-again_example =
    create_idempotent-again reply "o" 10 50 (empty fresh_services) replied first_result refl
      first_time

summary-list_messages_example :
    let v = summary taken in
    (v.total ≡ length (export_messages taken))
    × (v.queued ≡ length (list_messages (in_status queued) taken))
    × (v.claimed ≡ length (list_messages (in_status claimed) taken))
    × (v.consumed ≡ length (list_messages (in_status consumed) taken))
    × (v.failed ≡ length (list_messages (in_status failed) taken))
    × (v.cancelled ≡ length (list_messages (in_status cancelled) taken))
    × (v.total ≡ v.queued + v.claimed + v.consumed + v.failed + v.cancelled)
summary-list_messages_example = summary-list_messages taken
