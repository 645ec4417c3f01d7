-- ===== src/Reviews/Examples.antt =====
-- The theorems about reviews at one review between two endpoints.
use cli_bridge.Endpoints.Registry.{get_endpoint, validate_action}
use cli_bridge.Common.{
  ℕ, ◌≡◌, refl, none, some, List, [], ◌∷◌, nat_eq, string_eq, get, set, is_blank,
}
use cli_bridge.Services.Packets.{id_or_uuid, create_packet}
use cli_bridge.Services.Redaction.{redact_sensitive_content}
use cli_bridge.Reviews.Model.{
  agent_review_status_eq, AgentReviewRequest, validate_agent_review_request,
}
use cli_bridge.Reviews.Store.{Store, CreateInput, review_packet, new_review, create_draft}
use cli_bridge.Reviews.Operations.{preview, confirmed_review, confirm, ReturnInput}
use cli_bridge.Reviews.Calls.{
  Call, creates, previews, confirms, sends, returns, step, run, HasKeys, IsFreshAll,
}
use cli_bridge.Reviews.Lifecycle.{Follows, step-HasKeys, step-Follows}
use cli_bridge.Services.Examples.{fresh_services}
use cli_bridge.Endpoints.Examples.{one_endpoint}
use cli_bridge.Pending.Calls.{empty as no_prompts}
use cli_bridge.Reviews.Returns.{AllReturned, run-AllReturned}

abbrev start : Store
start = record {
  registry = one_endpoint;
  prompts = (no_prompts fresh_services).store;
  reviews = [];
  results = [];
}

abbrev question : CreateInput
question = record {
  id = some "r";
  session_id = "s1";
  source_endpoint_id = "codex";
  target_endpoint_id = "codex";
  prompt = "Look at this";
  project_id = none;
}

abbrev answer : ReturnInput
answer = record { id = none; summary = "Fine"; findings = []; next_prompt_draft = some "Go on" }

abbrev calls : List (ℕ × Call)
calls =
    (10, creates question)
    ∷ (20, previews "r")
    ∷ (30, confirms "r")
    ∷ (40, sends "r")
    ∷ (50, returns "r" answer)
    ∷ []

abbrev confirmed_store : Store
confirmed_store = run start ((10, creates question) ∷ (20, previews "r") ∷ (30, confirms "r") ∷ [])

abbrev the_review : AgentReviewRequest
the_review = confirmed_review 30 (new_review question (review_packet question 10 start).0 "r" 10)

confirms_it : get "r" confirmed_store.reviews ≡ some (record the_review { updated_at = 30 })
unfolding get run confirm preview create_draft cli_bridge.Endpoints.Registry.get_endpoint
    cli_bridge.Endpoints.Registry.validate_action validate_agent_review_request is_blank new_review
    id_or_uuid create_packet redact_sensitive_content set
confirms_it = refl

calls-IsFreshAll : IsFreshAll start calls
unfolding get
calls-IsFreshAll = (refl, (tt, (tt, (tt, (tt, tt)))))

run-AllReturned_example : AllReturned (run start calls)
run-AllReturned_example = run-AllReturned start calls tt calls-IsFreshAll tt

abbrev drafted : Store
drafted = step start (10, creates question)

abbrev the_draft : AgentReviewRequest
the_draft = new_review question (review_packet question 10 start).0 "r" 10

drafted-HasKeys : HasKeys drafted
unfolding get
drafted-HasKeys = step-HasKeys start (10, creates question) tt refl

drafted_there : get "r" drafted.reviews ≡ some the_draft
unfolding get step create_draft cli_bridge.Endpoints.Registry.get_endpoint
    cli_bridge.Endpoints.Registry.validate_action validate_agent_review_request is_blank new_review
    id_or_uuid create_packet redact_sensitive_content set
drafted_there = refl

step-Follows_example :
    (q : AgentReviewRequest) × (get "r" (step drafted (20, previews "r")).reviews ≡ some q)
    × Follows the_draft q
step-Follows_example =
    step-Follows drafted (20, previews "r") "r" the_draft drafted-HasKeys tt drafted_there
