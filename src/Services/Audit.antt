-- ===== src/Services/Audit.antt =====
-- The audit events of packages/shared/src/types.ts.
use cli_bridge.Common.{ℕ, Bool, true, false, String, Option, none, List}
use cli_bridge.Services.Json.{Json}

pub data AuditEventType : Type 0 where
  read_cli_output process_content redact_sensitive create_outbound_prompt claim_outbound_prompt
        outbound_status_report fill_chatgpt extract_chatgpt create_pending_prompt confirm_prompt
        send_to_agent copy_to_clipboard create_pending_review preview_review confirm_review
        send_review return_review_result operation_failed operation_cancelled team_created
        team_approved team_cancelled slot_started slot_done slot_failed slot_gated artifact_recorded
        model_plan_request model_plan_result model_critique_request model_critique_result
        workspace_apply_request workspace_apply_result relay_context_bound relay_context_conflict
        relay_context_delivered inbound_created inbound_claimed inbound_consumed inbound_failed
        inbound_cancelled inbound_rejected extract_return_routed_inbound
        extract_return_fallback_pending :
      AuditEventType

pub data RiskLevel : Type 0 where
  low medium high : RiskLevel

-- Of the snapshot only `transport` is ever set by the stores that are modelled.
pub record Snapshot : Type 0 where
  pub cwd : Option String
  pub branch : Option String
  pub dirty : Option Bool
  pub agent : Option String
  pub transport : Option String

pub record Safety : Type 0 where
  pub content_hash : Option String
  pub redaction_summary : Option (List String)
  pub risk_level : Option RiskLevel

pub record Outcome : Type 0 where
  pub ok : Bool
  pub failure_reason : Option String
  pub metadata : Option Json

pub record AuditEvent : Type 0 where
  pub id : String
  pub session_id : String
  pub packet_id : Option String
  pub approval_id : Option String
  pub project_id : Option String
  pub team_id : Option String
  pub slot_id : Option String
  pub plan_step_id : Option String
  pub goal_id : Option String
  pub type : AuditEventType
  pub source : String
  pub target : String
  pub snapshot : Snapshot
  pub safety : Safety
  pub result : Outcome
  pub timestamp : ℕ

-- What a caller of `createAuditEvent` gives; the optional fields default to nothing.
pub record AuditInput : Type 0 where
  pub id : Option String
  pub session_id : String
  pub packet_id : Option String
  pub approval_id : Option String
  pub project_id : Option String
  pub team_id : Option String
  pub slot_id : Option String
  pub plan_step_id : Option String
  pub goal_id : Option String
  pub type : AuditEventType
  pub source : String
  pub target : String
  pub snapshot : Option Snapshot
  pub safety : Option Safety
  pub result : Outcome
  pub timestamp : ℕ

abbrev pub no_snapshot : Snapshot
no_snapshot = record { cwd = none; branch = none; dirty = none; agent = none; transport = none }

abbrev pub no_safety : Safety
no_safety = record { content_hash = none; redaction_summary = none; risk_level = none }

abbrev pub succeeded : Outcome
succeeded = record { ok = true; failure_reason = none; metadata = none }

abbrev pub failed_with : Option String → Outcome
failed_with reason = record { ok = false; failure_reason = reason; metadata = none }
