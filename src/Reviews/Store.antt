-- ===== src/Reviews/Store.antt =====
-- `InMemoryPendingReviewStore`: its state and how a review is drafted. The packets and the audit log are
-- those that the store of pending prompts works on too.
use cli_bridge.Common.{
  Attempt, made, thrown, ℕ, String, Option, none, some, List, [], ◌∷◌, if◌then◌else◌, nat_eq,
  string_eq, Map, set,
}
use cli_bridge.Services.Audit.{AuditEventType, RiskLevel, AuditInput, Outcome, Safety, succeeded}
use cli_bridge.Services.Packets.{
  BridgePacket, Services, id_or_uuid, create_packet, create_and_append, PacketKind, PacketSource,
  PacketTarget,
}
use cli_bridge.Reviews.Model.{
  draft, agent_review_status_eq, AgentReviewRequest, AgentReviewResult,
  validate_agent_review_request,
}
use cli_bridge.Endpoints.Model.{review}
use cli_bridge.Endpoints.Registry.{
  Registry, RegistryFailure, duplicate_endpoint_id, endpoint_not_found, capability_denied,
  endpoint_offline, endpoint_already_offline, ok, refused, validate_action, get_endpoint,
}
use Prim.Native.String.{◌++◌ as append}
use cli_bridge.Pending.Store.{Store as PromptStore}

pub record Store : Type 0 where
  pub registry : Registry
  pub prompts : PromptStore
  pub reviews : Map AgentReviewRequest
  pub results : Map AgentReviewResult

abbrev pub services : Store → Services
services s = s.prompts.services

abbrev pub with_services : Services → Store → Store
with_services w s = record s { prompts = record (s.prompts) { services = w } }

pub record CreateInput : Type 0 where
  pub id : Option String
  pub session_id : String
  pub source_endpoint_id : String
  pub target_endpoint_id : String
  pub prompt : String
  pub project_id : Option String

abbrev pub failure_text : RegistryFailure → String
failure_text duplicate_endpoint_id = "duplicate-endpoint-id"
failure_text endpoint_not_found = "endpoint-not-found"
failure_text capability_denied = "capability-denied"
failure_text endpoint_offline = "endpoint-offline"
failure_text endpoint_already_offline = "endpoint-already-offline"

-- The event that an operation on a review records.
abbrev pub review_event :
    AuditEventType → String → String → Option Safety → Outcome → ℕ → AgentReviewRequest → AuditInput
review_event type source target safety result now r = record {
  id = none;
  session_id = r.session_id;
  packet_id = some r.packet_id;
  approval_id = none;
  project_id = r.project_id;
  team_id = none;
  slot_id = none;
  plan_step_id = none;
  goal_id = none;
  type = type;
  source = source;
  target = target;
  snapshot = none;
  safety = safety;
  result = result;
  timestamp = now;
}

-- `reviews.set(review.id, cloneReview(review))`
abbrev pub save : AgentReviewRequest → Store → Store
save r s = record s { reviews = set r.id r s.reviews }

abbrev pub audit : AuditInput → Store → Store
audit input s = with_services (create_and_append input (services s)) s

unfoldable pub review_packet : CreateInput → ℕ → Store → BridgePacket × Services
review_packet input now s =
    create_packet
      (record {
        id = none;
        session_id = input.session_id;
        source = PacketSource.user_selection;
        target = PacketTarget.clipboard;
        kind = PacketKind.cli_output_review;
        raw_content = input.prompt;
        transport = none;
        status = none;
      })
      now (services s)

unfoldable pub new_review : CreateInput → BridgePacket → String → ℕ → AgentReviewRequest
new_review input packet id now = record {
  id = id;
  session_id = input.session_id;
  source_endpoint_id = input.source_endpoint_id;
  target_endpoint_id = input.target_endpoint_id;
  packet_id = packet.id;
  project_id = input.project_id;
  status = draft;
  prompt = packet.processed_content;
  created_at = now;
  updated_at = now;
  confirmed_at = none;
  sent_at = none;
  returned_at = none;
  cancelled_at = none;
  failed_at = none;
  failure_reason = none;
}

abbrev pub draft_safety : BridgePacket → Safety
draft_safety packet = record {
  content_hash = some packet.safety.content_hash;
  redaction_summary = some packet.safety.redaction_summary;
  risk_level = some (if packet.safety.blocked then RiskLevel.high else RiskLevel.low);
}

-- What is made after `assertAgentReviewRequest`, by the errors that it found.
unfoldable pub keep_review :
    BridgePacket → AgentReviewRequest → ℕ → Store → List String → Attempt AgentReviewRequest × Store
keep_review packet r now s [] = (
  made r,
  audit
      (review_event AuditEventType.create_pending_review r.source_endpoint_id r.target_endpoint_id
        (some (draft_safety packet)) succeeded now r)
      (save r s),
)
keep_review packet r now s (e ∷ es) = (thrown (e ∷ es), s)

-- `assertEndpointExists` and `assertCanReview`
unfoldable pub draft_refusal : CreateInput → Registry → Option String
draft_refusal input registry = elim (get_endpoint input.source_endpoint_id registry) [
  | none ↦ some (append "endpoint-not-found: " input.source_endpoint_id)
  | some e ↦ elim (validate_action input.target_endpoint_id review registry) [
    | ok ↦ none
    | refused why ↦ some (failure_text why)
  ]
]

-- A review that its validator refuses leaves its packet behind.
unfoldable pub create_draft : CreateInput → ℕ → Store → Attempt AgentReviewRequest × Store
unfolding review_packet keep_review draft_refusal
create_draft input now s = elim (draft_refusal input s.registry) [
  | some reason ↦ (thrown (reason ∷ []), s)
  | none ↦
      (let (packet, w) = review_packet input now s in
        let (id, w') = id_or_uuid input.id w in
        let r : AgentReviewRequest = new_review input packet id now in
        keep_review packet r now (with_services w' s) (validate_agent_review_request r))
]
