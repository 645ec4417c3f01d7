-- ===== src/Inbound/Delivery.antt =====
-- The operations of `InMemoryInboundMessageStore` that deliver: claims, acknowledgements and
-- cancellations; and the summary.
use cli_bridge.Common.{
  ℕ, ◌+◌, Bool, false, ◌&&◌, String, Option, none, some, List, [], ◌∷◌, if◌then◌else◌, ◌==◌, nat_eq,
  string_eq, or_else, length, filter, head?, get, values, sort_by,
}
use cli_bridge.Services.Audit.{AuditEventType, AuditInput, Outcome, succeeded, failed_with}
use cli_bridge.Services.Json.{str, obj, field, end}
use cli_bridge.Inbound.Model.{
  InboundStatus, queued, claimed, consumed, failed, cancelled, inbound_status_eq, InboundMessage,
  is_terminal,
}
use cli_bridge.Inbound.Store.{Store, message_event, save, audit, fits}

pub record ClaimInput : Type 0 where
  pub endpoint_id : String
  pub session_id : Option String

abbrev pub is_wanted : ClaimInput → InboundMessage → Bool
is_wanted input m =
    m.status == queued && m.endpoint_id == input.endpoint_id && fits input.session_id m.session_id

unfoldable pub claim_message : ℕ → InboundMessage → InboundMessage
claim_message now m = record m { status = claimed; claimed_at = some now; updated_at = now }

unfoldable pub next_wanted : ClaimInput → Store → Option InboundMessage
next_wanted input s =
    head? (
      sort_by (λ (m : InboundMessage). m.created_at) (filter (is_wanted input) (values s.messages)))

unfoldable pub claim_next : ClaimInput → ℕ → Store → Option InboundMessage × Store
unfolding claim_message next_wanted
claim_next input now s = elim (next_wanted input s) [
  | none ↦ (none, s)
  | some m ↦
      let c = claim_message now m in
      (
        some c,
        audit (message_event AuditEventType.inbound_claimed "local-server" none succeeded now c)
            (save c s),
      )
]

pub data ActionFailure : Type 0 where
  not_found endpoint_mismatch invalid_state : ActionFailure

pub data ActionResult : Type 0 where
  acted : InboundMessage → ActionResult
  denied : ActionFailure → ActionResult

-- The refusal of another endpoint's message is audited with the endpoint that asked.
abbrev pub mismatch_outcome : String → Outcome
mismatch_outcome endpoint_id = record {
  ok = false;
  failure_reason = some "endpoint-mismatch";
  metadata = some (obj (field "requestedEndpointId" (str endpoint_id) end));
}

unfoldable pub resolve_for_endpoint : String → String → ℕ → Store → ActionResult × Store
resolve_for_endpoint id endpoint_id now s = elim (get id s.messages) [
  | none ↦ (denied not_found, s)
  | some m ↦
      if m.endpoint_id == endpoint_id
      then (if is_terminal m.status then (denied invalid_state, s) else (acted m, s))
      else (
        denied endpoint_mismatch,
        audit
            (message_event AuditEventType.inbound_rejected "local-server" none
              (mismatch_outcome endpoint_id) now m)
            s,
      )
]

pub record AckInput : Type 0 where
  pub inbound_message_id : String
  pub endpoint_id : String
  pub ok : Bool
  pub failure_reason : Option String

unfoldable pub settle : AckInput → ℕ → InboundMessage → InboundMessage
settle input now m =
    if input.ok
    then record m {
      status = consumed;
      consumed_at = some now;
      failure_reason = none;
      updated_at = now;
    }
    else record m {
      status = failed;
      failed_at = some now;
      failure_reason = some (or_else input.failure_reason "inbound-consume-failed");
      updated_at = now;
    }

abbrev pub settled_event : AckInput → ℕ → InboundMessage → AuditInput
settled_event input now m =
    if input.ok
    then message_event AuditEventType.inbound_consumed "local-server" none succeeded now m
    else message_event AuditEventType.inbound_failed "local-server" none
        (failed_with m.failure_reason) now m

unfoldable pub act :
    (InboundMessage → InboundMessage)
    → (InboundMessage → AuditInput)
    → ActionResult × Store
    → ActionResult × Store
act f event (denied why, s) = (denied why, s)
act f event (acted m, s) = (acted (f m), audit (event (f m)) (save (f m) s))

unfoldable pub ack : AckInput → ℕ → Store → ActionResult × Store
unfolding resolve_for_endpoint settle act
ack input now s =
    act (settle input now) (settled_event input now)
      (resolve_for_endpoint input.inbound_message_id input.endpoint_id now s)

unfoldable pub cancel_message : ℕ → InboundMessage → InboundMessage
cancel_message now m = record m { status = cancelled; cancelled_at = some now; updated_at = now }

unfoldable pub cancel : String → String → ℕ → Store → ActionResult × Store
unfolding resolve_for_endpoint cancel_message act
cancel id endpoint_id now s =
    act (cancel_message now)
      (message_event AuditEventType.inbound_cancelled "local-server" none succeeded now)
      (resolve_for_endpoint id endpoint_id now s)

pub record Summary : Type 0 where
  pub total : ℕ
  pub queued : ℕ
  pub claimed : ℕ
  pub consumed : ℕ
  pub failed : ℕ
  pub cancelled : ℕ

unfoldable pub count : InboundStatus → List InboundMessage → ℕ
count status [] = 0
count status (m ∷ ms) = (if m.status == status then 1 else 0) + count status ms

unfoldable pub summary : Store → Summary
unfolding count
summary s =
    let ms = values s.messages in
    record {
      total = length ms;
      queued = count InboundStatus.queued ms;
      claimed = count InboundStatus.claimed ms;
      consumed = count InboundStatus.consumed ms;
      failed = count InboundStatus.failed ms;
      cancelled = count InboundStatus.cancelled ms;
    }
