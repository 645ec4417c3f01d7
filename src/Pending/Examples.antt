-- ===== src/Pending/Examples.antt =====
-- A prompt that is created, previewed, confirmed and sent.
use cli_bridge.Common.{
  ℕ, ◌≡◌, refl, inl, true, String, none, some, List, [], ◌∷◌, ◌++◌, nat_eq, string_eq, get, set, In,
}
use cli_bridge.Services.Packets.{create_packet, create_and_append, Transport}
use cli_bridge.Services.Redaction.{redact_sensitive_content}
use cli_bridge.Pending.Model.{confirmed, sent, pending_prompt_status_eq, PendingPrompt, Delivery}
use cli_bridge.Pending.Store.{
  lookup, put, CreateInput, create, preview, confirm, cancel, get_prompt,
}
use cli_bridge.Pending.Sending.{Flight, flies, begin_send, finish_send}
use cli_bridge.Pending.Calls.{
  Server, Call, creates, previews, confirms, begins, lands, run, empty, texts,
}
use cli_bridge.Pending.Handed.{run-IsHanded}
use cli_bridge.Pending.Overlaps.{cancel-finish_send, finish_send-Closed, Closed}
use cli_bridge.Services.Examples.{fresh_services, bearer_rule}

abbrev question : CreateInput
question = record {
  id = some "a";
  session_id = "s";
  prompt = "Bearer abc";
  source = none;
  transport = none;
  project_id = none;
}

abbrev calls : List (ℕ × Call)
calls = (10, creates question) ∷ (20, previews "a") ∷ (30, confirms "a") ∷ (40, begins "a") ∷ []

abbrev delivered : Delivery
delivered = record { ok = true; failure_reason = none }

abbrev server : Server
server = run (empty fresh_services) calls

abbrev asked : PendingPrompt
asked = record {
  id = "a";
  session_id = "s";
  packet_id = "u";
  prompt = "Bearer [REDACTED_TOKEN]";
  project_id = none;
  status = confirmed;
  transport = Transport.managed_pty;
  clipboard_handoff = none;
  created_at = 10;
  updated_at = 30;
  confirmed_at = some 30;
  sent_at = none;
  cancelled_at = none;
  failed_at = none;
  failure_reason = none;
}

abbrev flight : Flight
flight = record { held = 2; text = "Bearer [REDACTED_TOKEN]"; now = 40 }

-- Two sends of a prompt that overlap are both handed to the adapter.
handed_twice :
    (run (empty fresh_services) (calls ++ (41, begins "a") ∷ [])).handed
    ≡ ("a", "Bearer [REDACTED_TOKEN]") ∷ ("a", "Bearer [REDACTED_TOKEN]") ∷ []
unfolding run create preview confirm begin_send lookup put create_packet redact_sensitive_content
    get set create_and_append
handed_twice = refl

-- A prompt that was sent, previewed and confirmed anew is handed over again.
handed_again :
    (run (empty fresh_services) (
      calls
      ++ (50, lands 0 "codex" delivered)
        ∷ (60, previews "a")
        ∷ (70, confirms "a")
        ∷ (80, begins "a")
        ∷ [])).handed
    ≡ ("a", "Bearer [REDACTED_TOKEN]") ∷ ("a", "Bearer [REDACTED_TOKEN]") ∷ []
unfolding run create preview confirm begin_send lookup put create_packet redact_sensitive_content
    get set create_and_append finish_send
handed_again = refl

run-IsHanded_example :
    In {A = String} "a" ("a" ∷ [])
    × In {A = String} "Bearer [REDACTED_TOKEN]" (texts (bearer_rule ∷ []) calls [])
unfolding run create preview confirm begin_send lookup put create_packet redact_sensitive_content
    get set create_and_append
run-IsHanded_example = run-IsHanded fresh_services calls "a" "Bearer [REDACTED_TOKEN]" (inl refl)

cancel-finish_send_example :
    (begin_send "a" 40 server.store ≡ flies flight)
    × (get_prompt "a" (finish_send "codex" delivered flight (cancel "a" 45 server.store).1).1
        ≡ some (record asked {
          status = sent;
          cancelled_at = some 45;
          sent_at = some 40;
          updated_at = 40;
        }))
unfolding run create preview confirm begin_send lookup put create_packet redact_sensitive_content
    get set create_and_append
cancel-finish_send_example =
    cancel-finish_send "codex" delivered "a" 2 asked 40 45 server.store (refl, refl) refl refl refl

finish_send-Closed_example :
    Closed "a" 50 "no agent" (finish_send "codex" delivered flight server.store).1
unfolding run create preview confirm begin_send lookup put create_packet redact_sensitive_content
    get set create_and_append
finish_send-Closed_example =
    finish_send-Closed "codex" "no agent" delivered flight asked 50 server.store refl refl
