-- ===== src/Outbound/Reports.antt =====
-- `createStatusView`, `createAcceptanceReport`, `listPrompts` and `getPrompt` of
-- apps/local-server/src/storage/outbound-prompt-store.ts.
use cli_bridge.Common.{
  ℕ, ◌+◌, Bool, true, String, Option, none, some, List, [], map, ltb, ◌==◌, nat_eq, string_eq,
  or_else, length, filter, get, values, truthy,
}
use cli_bridge.Services.Json.{num, bool, obj, end, field}
use cli_bridge.Services.Audit.{outbound_status_report}
use cli_bridge.Outbound.Prompts.{OutboundStatus, status_eq, Evidence, OutboundPrompt}
use cli_bridge.Outbound.Store.{Store, audit}

-- The view has no count of its own for `delivered`.
pub record StatusView : Type 0 where
  pub total : ℕ
  pub queued : ℕ
  pub claimed : ℕ
  pub waiting_manual_send : ℕ
  pub submitted : ℕ
  pub responding : ℕ
  pub response_ready : ℕ
  pub returned : ℕ
  pub completed : ℕ
  pub expired : ℕ
  pub failed : ℕ
  pub cancelled : ℕ
  pub active : Bool

unfoldable pub count : OutboundStatus → List OutboundPrompt → ℕ
count status ps = length (filter (λ p. p.status == status) ps)

unfoldable pub create_status_view : Store → StatusView
unfolding count
create_status_view s =
    let ps = values s.prompts in
    record {
      total = length ps;
      queued = count OutboundStatus.queued ps;
      claimed = count OutboundStatus.claimed ps;
      waiting_manual_send = count OutboundStatus.waiting_manual_send ps;
      submitted = count OutboundStatus.submitted ps;
      responding = count OutboundStatus.responding ps;
      response_ready = count OutboundStatus.response_ready ps;
      returned = count OutboundStatus.returned ps;
      completed = count OutboundStatus.completed ps;
      expired = count OutboundStatus.expired ps;
      failed = count OutboundStatus.failed ps;
      cancelled = count OutboundStatus.cancelled ps;
      active = ltb 0 (
          count OutboundStatus.queued ps
          + count OutboundStatus.claimed ps
          + count OutboundStatus.waiting_manual_send ps);
    }

pub record PromptLine : Type 0 where
  pub id : String
  pub session_id : String
  pub packet_id : String
  pub status : OutboundStatus
  pub evidence : List Evidence
  pub failure_reason : Option String

pub record AcceptanceReport : Type 0 where
  pub generated_at : ℕ
  pub status : StatusView
  pub prompts : List PromptLine

prompt_line : OutboundPrompt → PromptLine
prompt_line p = record {
  id = p.id;
  session_id = p.session_id;
  packet_id = p.packet_id;
  status = p.status;
  evidence = or_else p.evidence [];
  failure_reason = truthy p.failure_reason;
}

unfoldable pub create_acceptance_report : ℕ → Store → AcceptanceReport × Store
unfolding create_status_view prompt_line
create_acceptance_report now s =
    let view = create_status_view s in
    (
      record { generated_at = now; status = view; prompts = map prompt_line (values s.prompts) },
      audit
          (record {
            id = none;
            session_id = "outbound-status-report";
            packet_id = none;
            approval_id = none;
            project_id = none;
            team_id = none;
            slot_id = none;
            plan_step_id = none;
            goal_id = none;
            type = outbound_status_report;
            source = "local-server";
            target = "operator";
            snapshot = none;
            safety = none;
            result = record {
              ok = true;
              failure_reason = none;
              metadata =
                  some
                    (obj (field "total" (num view.total) (field "active" (bool view.active) end)));
            };
            timestamp = now;
          })
          s,
    )

unfoldable pub list_prompts : Store → List OutboundPrompt
list_prompts s = values s.prompts

unfoldable pub get_prompt : String → Store → Option OutboundPrompt
get_prompt id s = get id s.prompts
