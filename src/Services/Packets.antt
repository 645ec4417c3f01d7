-- ===== src/Services/Packets.antt =====
-- The state that the stores share, and its operations: apps/local-server/src/storage/packet-store.ts
-- and audit-log.ts, with packages/shared/src/utils.
use Prim.Native.String.{◌++◌ as append}
use cli_bridge.Common.{
  ℕ, suc, ◌+◌, ◌*◌, ◌/◌, Bool, false, String, Option, none, some, List, [], ◌∷◌, ◌++◌, Map, get,
  set, values, or_else, if◌then◌else◌, ◌==◌, nat_eq, string_eq, filter, delete, utf16_length,
  trimmed_length,
}
use cli_bridge.Services.Redaction.{Rule, RedactionResult, redact_sensitive_content}
use cli_bridge.Services.Audit.{AuditEvent, AuditInput, no_snapshot, no_safety}

pub data PacketSource : Type 0 where
  codex chatgpt_web user_selection clipboard : PacketSource

pub data PacketTarget : Type 0 where
  codex chatgpt_web clipboard : PacketTarget

pub data PacketKind : Type 0 where
  cli_output_review pending_prompt manual_transfer failure_report : PacketKind

pub data PacketStatus : Type 0 where
  draft previewed confirmed sent failed cancelled : PacketStatus

pub data Transport : Type 0 where
  managed_pty clipboard : Transport

-- `rawContentRef.storage`; the stores only ever write `memory-only`.
pub data RawStorage : Type 0 where
  memory_only debug_ttl : RawStorage

pub record PacketSafety : Type 0 where
  pub redaction_applied : Bool
  pub redaction_summary : List String
  pub blocked : Bool
  pub block_reasons : List String
  pub content_hash : String

-- The compression ratio counts ten-thousandths, the digits that the source keeps.
pub record Metrics : Type 0 where
  pub raw_length : ℕ
  pub processed_length : ℕ
  pub raw_token_estimate : ℕ
  pub processed_token_estimate : ℕ
  pub compression_ratio : Option ℕ

-- Of the context the stores only ever set the transport.
pub record BridgePacket : Type 0 where
  pub id : String
  pub session_id : String
  pub source : PacketSource
  pub target : PacketTarget
  pub kind : PacketKind
  pub processed_content : String
  pub raw_content_ref : Option RawStorage
  pub safety : PacketSafety
  pub transport : Option Transport
  pub metrics : Metrics
  pub status : PacketStatus
  pub created_at : ℕ
  pub updated_at : ℕ

-- What the code takes from its platform: the n-th random identifier, and the digest in hexadecimal.
pub record Env : Type 0 where
  pub uuid : ℕ → String
  pub sha256_hex : String → String
  pub rules : List Rule

pub record Services : Type 0 where
  pub env : Env
  pub open env use *
  pub drawn : ℕ
  pub packets : Map BridgePacket
  pub raw_contents : Map String
  pub events : List AuditEvent

-- `randomUUID()`
unfoldable pub random_uuid : Services → String × Services
random_uuid s = (s.uuid s.drawn, record s { drawn = suc s.drawn })

-- `given ?? randomUUID()`
unfoldable pub id_or_uuid : Option String → Services → String × Services
unfolding random_uuid
id_or_uuid none s = random_uuid s
id_or_uuid (some id) s = (id, s)

unfoldable pub create_content_hash : Env → String → String
create_content_hash env content = append "sha256:" (env.sha256_hex content)

-- Characters over four, rounded up; nothing for a blank text.
unfoldable pub estimate_token_count : String → ℕ
unfolding trimmed_length
estimate_token_count content = (trimmed_length content + 3) / 4

-- `toFixed(4)` rounds half up; the quotient is taken exactly.
unfoldable pub calculate_compression_ratio : ℕ → ℕ → Option ℕ
calculate_compression_ratio raw processed =
    if raw == 0 then none else some ((20000 * processed + raw) / (2 * raw))

unfoldable pub create_metrics : String → String → Metrics
unfolding estimate_token_count calculate_compression_ratio utf16_length
create_metrics raw processed = record {
  raw_length = utf16_length raw;
  processed_length = utf16_length processed;
  raw_token_estimate = estimate_token_count raw;
  processed_token_estimate = estimate_token_count processed;
  compression_ratio = calculate_compression_ratio (utf16_length raw) (utf16_length processed);
}

pub record CreatePacketInput : Type 0 where
  pub id : Option String
  pub session_id : String
  pub source : PacketSource
  pub target : PacketTarget
  pub kind : PacketKind
  pub raw_content : String
  pub transport : Option Transport
  pub status : Option PacketStatus

-- `assertBridgePacket` cannot fail on a record of this type, so the call always returns.
unfoldable pub create_packet : CreatePacketInput → ℕ → Services → BridgePacket × Services
unfolding create_content_hash create_metrics id_or_uuid
create_packet input now s =
    let redaction : RedactionResult = redact_sensitive_content s.rules input.raw_content in
    let content : String = redaction.processed_content in
    let (id, s') = id_or_uuid input.id s in
    let packet : BridgePacket = record {
      id = id;
      session_id = input.session_id;
      source = input.source;
      target = input.target;
      kind = input.kind;
      processed_content = content;
      raw_content_ref = some memory_only;
      safety = record {
        redaction_applied = redaction.redaction_applied;
        redaction_summary = redaction.redaction_summary;
        blocked = redaction.blocked;
        block_reasons = redaction.block_reasons;
        content_hash = create_content_hash s.env content;
      };
      transport = input.transport;
      metrics = create_metrics input.raw_content content;
      status = or_else input.status draft;
      created_at = now;
      updated_at = now;
    } in
    (
      packet,
      record s' {
        packets = set id packet s'.packets;
        raw_contents = set id input.raw_content s'.raw_contents;
      },
    )

unfoldable pub get_raw_content : String → Services → Option String
get_raw_content id s = get id s.raw_contents

unfoldable pub clear_raw_content : String → Services → Services
clear_raw_content id s = record s { raw_contents = delete id s.raw_contents }

-- `listPackets` and `exportPackets`
unfoldable pub export_packets : Services → List BridgePacket
export_packets s = values s.packets

-- `createAuditEvent`, given its identifier.
unfoldable pub create_audit_event : AuditInput → String → AuditEvent
create_audit_event input id = record {
  id = id;
  session_id = input.session_id;
  packet_id = input.packet_id;
  approval_id = input.approval_id;
  project_id = input.project_id;
  team_id = input.team_id;
  slot_id = input.slot_id;
  plan_step_id = input.plan_step_id;
  goal_id = input.goal_id;
  type = input.type;
  source = input.source;
  target = input.target;
  snapshot = or_else input.snapshot no_snapshot;
  safety = or_else input.safety no_safety;
  result = input.result;
  timestamp = input.timestamp;
}

-- `assertAuditEvent` cannot fail on a record of this type.
unfoldable pub create_and_append : AuditInput → Services → Services
unfolding create_audit_event
create_and_append input s =
    let (id, s') = id_or_uuid input.id s in
    record s' { events = s'.events ++ create_audit_event input id ∷ [] }

abbrev is_packet : String → Option String → Bool
is_packet id none = false
is_packet id (some p) = p == id

unfoldable pub list_events_for_packet : String → Services → List AuditEvent
list_events_for_packet id s = filter (λ e. is_packet id e.packet_id) s.events
