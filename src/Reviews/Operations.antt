-- ===== src/Reviews/Operations.antt =====
-- What happens to a review after its draft.
use cli_bridge.Common.{
  Attempt, made, thrown, ℕ, Bool, true, false, not, ◌||◌, String, Option, none, some, List, [], ◌∷◌,
  if◌then◌else◌, ◌==◌, nat_eq, string_eq, get, set, values, truthy,
}
use cli_bridge.Services.Audit.{AuditEventType, AuditInput, Outcome, succeeded, failed_with}
use cli_bridge.Services.Packets.{id_or_uuid, PacketSource, Transport}
use cli_bridge.Reviews.Model.{
  AgentReviewStatus, draft, previewed, confirmed, sent, returned, cancelled, failed,
  agent_review_status_eq, AgentReviewRequest, AgentReviewResult, validate_agent_review_result,
}
use cli_bridge.Reviews.Store.{
  Store, services, with_services, failure_text, review_event, save, audit,
}
use cli_bridge.Endpoints.Model.{review}
use cli_bridge.Endpoints.Registry.{ok, refused, validate_action}
use cli_bridge.Pending.Model.{PendingPrompt}
use cli_bridge.Pending.Store.{create as create_prompt, CreateInput as PromptInput}

-- An operation that finds its review, asks for a status, and records what it made of it from the endpoint
-- that asked for the review to the one that reviews.
unfoldable pub move_on :
    String
    → (AgentReviewStatus → Bool)
    → (AgentReviewRequest → AgentReviewRequest)
    → AuditEventType
    → Outcome
    → ℕ
    → Store
    → Option AgentReviewRequest × Store
move_on id allowed f type result now s = elim (get id s.reviews) [
  | none ↦ (none, s)
  | some r ↦
      if allowed r.status
      then (let q : AgentReviewRequest = f r in
          (
            some q,
            audit (review_event type q.source_endpoint_id q.target_endpoint_id none result now q)
                (save q s),
          ))
      else (none, s)
]

abbrev pub is_status : AgentReviewStatus → AgentReviewStatus → Bool
is_status status r = r == status

abbrev pub previewed_review : ℕ → AgentReviewRequest → AgentReviewRequest
previewed_review now r = record r { status = previewed; updated_at = now }

unfoldable pub preview : String → ℕ → Store → Option AgentReviewRequest × Store
unfolding move_on
preview id now s =
    move_on id (is_status draft) (previewed_review now) AuditEventType.preview_review succeeded now
      s

abbrev pub confirmed_review : ℕ → AgentReviewRequest → AgentReviewRequest
confirmed_review now r = record r { status = confirmed; confirmed_at = some now; updated_at = now }

unfoldable pub confirm : String → ℕ → Store → Option AgentReviewRequest × Store
unfolding move_on
confirm id now s =
    move_on id (is_status previewed) (confirmed_review now) AuditEventType.confirm_review succeeded
      now s

abbrev pub may_cancel : AgentReviewStatus → Bool
may_cancel status =
    not (status == sent || status == returned || status == cancelled || status == failed)

abbrev pub cancelled_review : ℕ → AgentReviewRequest → AgentReviewRequest
cancelled_review now r = record r { status = cancelled; cancelled_at = some now; updated_at = now }

unfoldable pub cancel : String → ℕ → Store → Option AgentReviewRequest × Store
unfolding move_on
cancel id now s =
    move_on id may_cancel (cancelled_review now) AuditEventType.operation_cancelled succeeded now s

abbrev pub may_fail : AgentReviewStatus → Bool
may_fail status = not (status == returned || status == failed)

abbrev pub failed_review : String → ℕ → AgentReviewRequest → AgentReviewRequest
failed_review reason now r = record r {
  status = failed;
  failure_reason = some reason;
  failed_at = some now;
  updated_at = now;
}

unfoldable pub fail : String → String → ℕ → Store → Option AgentReviewRequest × Store
unfolding move_on
fail id reason now s =
    move_on id may_fail (failed_review reason now) AuditEventType.operation_failed
      (failed_with (some reason)) now s

abbrev pub missing_review : String → ℕ → AgentReviewRequest
missing_review id now = record {
  id = id;
  session_id = "unknown";
  source_endpoint_id = "unknown";
  target_endpoint_id = "unknown";
  packet_id = "unknown";
  project_id = none;
  status = failed;
  prompt = "";
  created_at = now;
  updated_at = now;
  confirmed_at = none;
  sent_at = none;
  returned_at = none;
  cancelled_at = none;
  failed_at = some now;
  failure_reason = some "pending-review-not-found";
}

pub record SendResult : Type 0 where
  pub ok : Bool
  pub review : AgentReviewRequest
  pub failure_reason : Option String

abbrev pub unsent : AgentReviewRequest → String → SendResult
unsent r reason = record { ok = false; review = r; failure_reason = some reason }

abbrev pub sent_review : ℕ → AgentReviewRequest → AgentReviewRequest
sent_review now r = record r { status = sent; sent_at = some now; updated_at = now }

abbrev pub sent_event : ℕ → AgentReviewRequest → AuditInput
sent_event now q =
    review_event AuditEventType.send_review q.source_endpoint_id q.target_endpoint_id none succeeded
      now q

-- `sendConfirmed`, on the review that was found.
unfoldable pub send : AgentReviewRequest → ℕ → Store → SendResult × Store
send r now s = elim (validate_action r.target_endpoint_id review s.registry) [
  | refused why ↦ (unsent r (failure_text why), s)
  | ok ↦
      if r.status == confirmed
      then (
        record { ok = true; review = sent_review now r; failure_reason = none },
        audit (sent_event now (sent_review now r)) (save (sent_review now r) s),
      )
      else (unsent r "pending-review-not-confirmed", s)
]

unfoldable pub send_confirmed : String → ℕ → Store → SendResult × Store
unfolding send
send_confirmed id now s = elim (get id s.reviews) [
  | none ↦ (unsent (missing_review id now) "pending-review-not-found", s)
  | some r ↦ send r now s
]

pub record ReturnInput : Type 0 where
  pub id : Option String
  pub summary : String
  pub findings : List String
  pub next_prompt_draft : Option String

pub record ReturnResult : Type 0 where
  pub ok : Bool
  pub review : AgentReviewRequest
  pub result : Option AgentReviewResult
  pub next_prompt : Option PendingPrompt
  pub failure_reason : Option String

abbrev pub not_returned : AgentReviewRequest → String → ReturnResult
not_returned r reason = record {
  ok = false;
  review = r;
  result = none;
  next_prompt = none;
  failure_reason = some reason;
}

abbrev pub returned_review : ℕ → AgentReviewRequest → AgentReviewRequest
returned_review now r = record r { status = returned; returned_at = some now; updated_at = now }

unfoldable pub new_result : AgentReviewRequest → ReturnInput → String → ℕ → AgentReviewResult
new_result r input id now = record {
  id = id;
  review_request_id = r.id;
  summary = input.summary;
  findings = input.findings;
  next_prompt_draft = input.next_prompt_draft;
  created_at = now;
}

abbrev pub next_input : AgentReviewRequest → String → PromptInput
next_input r text = record {
  id = none;
  session_id = r.session_id;
  prompt = text;
  source = some PacketSource.user_selection;
  transport = some Transport.managed_pty;
  project_id = r.project_id;
}

-- The draft for the next prompt, unless it is empty, goes to the pending prompts.
unfoldable pub hand_on :
    AgentReviewRequest → AgentReviewResult → ℕ → Store → Option PendingPrompt × Store
hand_on r result now s = elim (truthy result.next_prompt_draft) [
  | none ↦ (none, s)
  | some text ↦
      (let (p, prompts) = create_prompt (next_input r text) now s.prompts in
        (some p, record s { prompts = prompts }))
]

-- The review goes back from the endpoint that reviewed to the one that asked.
abbrev pub return_event : ℕ → AgentReviewRequest → AuditInput
return_event now q =
    review_event AuditEventType.return_review_result q.target_endpoint_id q.source_endpoint_id none
      succeeded now q

abbrev pub save_result : AgentReviewResult → Store → Store
save_result result s = record s { results = set result.id result s.results }

-- What is made after `assertAgentReviewResult`, by the errors that it found.
unfoldable pub keep_result :
    AgentReviewRequest → AgentReviewResult → ℕ → Store → List String → Attempt ReturnResult × Store
unfolding hand_on
keep_result r result now s (e ∷ es) = (thrown (e ∷ es), s)
keep_result r result now s [] =
    let q : AgentReviewRequest = returned_review now r in
    let (next, t) =
      hand_on q result now (audit (return_event now q) (save_result result (save q s))) in
    (
      made (record {
        ok = true;
        review = q;
        result = some result;
        next_prompt = next;
        failure_reason = none;
      }),
      t,
    )

unfoldable pub return_result : String → ReturnInput → ℕ → Store → Attempt ReturnResult × Store
unfolding new_result keep_result
return_result id input now s = elim (get id s.reviews) [
  | none ↦ (made (not_returned (missing_review id now) "pending-review-not-found"), s)
  | some r ↦
      if r.status == sent
      then (let (result_id, w) = id_or_uuid input.id (services s) in
          let result : AgentReviewResult = new_result r input result_id now in
          keep_result r result now (with_services w s) (validate_agent_review_result result))
      else (made (not_returned r "pending-review-not-sent"), s)
]

unfoldable pub get_review : String → Store → Option AgentReviewRequest
get_review id s = get id s.reviews

unfoldable pub list_reviews : Store → List AgentReviewRequest
list_reviews s = values s.reviews

unfoldable pub list_results : Store → List AgentReviewResult
list_results s = values s.results
