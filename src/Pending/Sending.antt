-- ===== src/Pending/Sending.antt =====
-- `sendConfirmedPrompt`, cut at its `await`: what runs before the adapter is called, and what runs on the
-- held object when the delivery is known. Other operations may run between the two.
use cli_bridge.Common.{
  ℕ, Bool, true, false, String, Option, none, some, if◌then◌else◌, ◌==◌, nat_eq, string_eq, or_else,
}
use cli_bridge.Services.Audit.{send_to_agent, operation_failed, succeeded, failed_with}
use cli_bridge.Pending.Model.{
  confirmed, sent, failed, pending_prompt_status_eq, PendingPrompt, Delivery, transport_text,
}
use cli_bridge.Pending.Store.{Store, lookup, put, audit, prompt_event, missing_prompt}

-- A call of the adapter that has not come back: the object held, and the text handed over.
pub record Flight : Type 0 where
  pub held : ℕ
  pub text : String
  pub now : ℕ

-- `PendingPromptSendResult`, less the delivery, which is passed on as it came.
pub record SendResult : Type 0 where
  pub ok : Bool
  pub prompt : PendingPrompt
  pub clipboard_fallback : Option String
  pub failure_reason : Option String

pub data Begun : Type 0 where
  ended : SendResult → Begun
  flies : Flight → Begun

abbrev refused : PendingPrompt → String → Begun
refused p reason =
    ended
      (record { ok = false; prompt = p; clipboard_fallback = none; failure_reason = some reason })

-- Nothing is written before the adapter is called.
unfoldable pub begin_send : String → ℕ → Store → Begun
begin_send id now s = elim (lookup id s) [
  | none ↦ refused (missing_prompt id now) "pending-prompt-not-found"
  | some (at, p) ↦
      if p.status == confirmed
      then flies (record { held = at; text = p.prompt; now = now })
      else refused p "pending-prompt-not-confirmed"
]

unfoldable pub mark_failed : ℕ → PendingPrompt → String → ℕ → Store → PendingPrompt × Store
mark_failed at p reason now s =
    let q : PendingPrompt = record p {
      status = failed;
      failure_reason = some reason;
      failed_at = some now;
      updated_at = now;
    } in
    let event =
      prompt_event operation_failed "local-server" (transport_text p.transport) none
        (failed_with (some reason)) now q in
    (q, audit event (put at q s))

unfoldable pub deliver : String → ℕ → PendingPrompt → ℕ → Store → PendingPrompt × Store
deliver adapter at p now s =
    let q : PendingPrompt = record p { status = sent; sent_at = some now; updated_at = now } in
    (q, audit (prompt_event send_to_agent "local-server" adapter none succeeded now q) (put at q s))

-- From whatever status the held object has by now. Objects are never removed, so the first case does
-- not arise.
unfoldable pub finish_send : String → Delivery → Flight → Store → Option SendResult × Store
unfolding mark_failed deliver
finish_send adapter delivery flight s = elim (s.objects flight.held) [
  | none ↦ (none, s)
  | some p ↦
      if delivery.ok
      then (let (q, t) = deliver adapter flight.held p flight.now s in
          (
            some (record {
              ok = true;
              prompt = q;
              clipboard_fallback = none;
              failure_reason = none;
            }),
            t,
          ))
      else (let (q, t) =
            mark_failed flight.held p (or_else delivery.failure_reason "agent-delivery-failed")
              flight.now s in
          (
            some (record {
              ok = false;
              prompt = q;
              clipboard_fallback = some p.prompt;
              failure_reason = q.failure_reason;
            }),
            t,
          ))
]
