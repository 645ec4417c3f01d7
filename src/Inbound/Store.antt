-- ===== src/Inbound/Store.antt =====
-- The operations of `InMemoryInboundMessageStore`: the creation of messages, their listing, export and
-- hydration. An operation takes the time as an argument and returns its result with the new state; the
-- records that it returns are values, as the clones are.
use cli_bridge.Common.{
  Attempt, made, thrown, ℕ, suc, Bool, true, false, not, ◌&&◌, String, Option, none, some, List, [],
  ◌∷◌, if◌then◌else◌, Eq, ◌==◌, nat_eq, string_eq, filter, find, Map, set, values, sort_by, truthy,
}
use cli_bridge.Services.Audit.{AuditEventType, RiskLevel, AuditInput, Outcome, Safety, succeeded}
use cli_bridge.Services.Packets.{
  BridgePacket, Services, id_or_uuid, create_packet, create_and_append, PacketKind, PacketSource,
  PacketTarget,
}
use cli_bridge.Services.Redaction.{redact_sensitive_content}
use cli_bridge.Inbound.Model.{
  InboundStatus, queued, inbound_status_eq, InboundMessage, validate_inbound_message,
}

pub record Store : Type 0 where
  pub services : Services
  pub open services use *
  pub messages : Map InboundMessage

pub record CreateInput : Type 0 where
  pub id : Option String
  pub endpoint_id : String
  pub session_id : String
  pub content : String
  pub source_outbound_prompt_id : Option String

-- The event that an operation on a message records.
abbrev pub message_event :
    AuditEventType → String → Option Safety → Outcome → ℕ → InboundMessage → AuditInput
message_event type source safety result now m = record {
  id = none;
  session_id = m.session_id;
  packet_id = some m.packet_id;
  approval_id = some m.id;
  project_id = none;
  team_id = none;
  slot_id = none;
  plan_step_id = none;
  goal_id = none;
  type = type;
  source = source;
  target = m.endpoint_id;
  snapshot = none;
  safety = safety;
  result = result;
  timestamp = now;
}

-- `messages.set(message.id, cloneMessage(message))`
abbrev pub save : InboundMessage → Store → Store
save m s = record s { messages = set m.id m s.messages }

abbrev pub audit : AuditInput → Store → Store
audit input s = record s { services = create_and_append input s.services }

unfoldable pub message_packet : CreateInput → ℕ → Store → BridgePacket × Services
message_packet input now s =
    create_packet
      (record {
        id = none;
        session_id = input.session_id;
        source = PacketSource.chatgpt_web;
        target = PacketTarget.codex;
        kind = PacketKind.manual_transfer;
        raw_content = input.content;
        transport = none;
        status = none;
      })
      now s.services

unfoldable pub new_message : CreateInput → BridgePacket → String → ℕ → InboundMessage
new_message input packet id now = record {
  id = id;
  endpoint_id = input.endpoint_id;
  session_id = input.session_id;
  packet_id = packet.id;
  content = packet.processed_content;
  source_outbound_prompt_id = truthy input.source_outbound_prompt_id;
  status = queued;
  created_at = now;
  updated_at = now;
  claimed_at = none;
  consumed_at = none;
  failed_at = none;
  cancelled_at = none;
  failure_reason = none;
}

abbrev pub creation_safety : BridgePacket → Safety
creation_safety packet = record {
  content_hash = some packet.safety.content_hash;
  redaction_summary = some packet.safety.redaction_summary;
  risk_level = some (if packet.safety.blocked then RiskLevel.high else RiskLevel.low);
}

-- What is made after `assertInboundMessage`, by the errors that it found.
unfoldable pub keep_message :
    BridgePacket → InboundMessage → ℕ → Store → List String → Attempt InboundMessage × Store
keep_message packet m now s [] = (
  made m,
  audit
      (message_event AuditEventType.inbound_created "chatgpt-web" (some (creation_safety packet))
        succeeded now m)
      (save m s),
)
keep_message packet m now s (e ∷ es) = (thrown (e ∷ es), s)

-- A refused message leaves its packet behind.
unfoldable pub create : CreateInput → ℕ → Store → Attempt InboundMessage × Store
unfolding message_packet keep_message
create input now s =
    let (packet, services) = message_packet input now s in
    let (id, services') = id_or_uuid input.id services in
    let m : InboundMessage = new_message input packet id now in
    keep_message packet m now (record s { services = services' }) (validate_inbound_message m)

pub record CreateResult : Type 0 where
  pub message : InboundMessage
  pub replayed : Bool
  pub conflict : Bool

unfoldable pub created : Attempt InboundMessage × Store → Attempt CreateResult × Store
created (thrown es, s) = (thrown es, s)
created (made m, s) = (made (record { message = m; replayed = false; conflict = false }), s)

abbrev pub answers : String → InboundMessage → Bool
answers id m = elim m.source_outbound_prompt_id [ none ↦ false | some j ↦ j == id ]

abbrev pub same_operation : CreateInput → Store → InboundMessage → Bool
same_operation input s m =
    m.endpoint_id == input.endpoint_id
    && m.session_id == input.session_id
    && m.content == (redact_sensitive_content s.rules input.content).processed_content

-- `createIdempotent`, where the input names the outbound prompt that the reply answers.
unfoldable pub create_once : CreateInput → String → ℕ → Store → Attempt CreateResult × Store
unfolding created
create_once input prompt_id now s = elim (find (answers prompt_id) (values s.messages)) [
  | none ↦ created (create input now s)
  | some m ↦
      let same = same_operation input s m in
      (made (record { message = m; replayed = same; conflict = not same }), s)
]

unfoldable pub create_idempotent : CreateInput → ℕ → Store → Attempt CreateResult × Store
unfolding create_once created
create_idempotent input now s = elim (truthy input.source_outbound_prompt_id) [
  | none ↦ created (create input now s)
  | some prompt_id ↦ create_once input prompt_id now s
]

pub record ListQuery : Type 0 where
  pub endpoint_id : Option String
  pub session_id : Option String
  pub status : Option InboundStatus

-- `query.x === undefined || message.x === query.x`
abbrev pub fits {ℓ} : {A : Type ℓ} ⦃e : Eq A⦄ → Option A → A → Bool
fits none x = true
fits (some y) x = x == y

unfoldable pub list_messages : ListQuery → Store → List InboundMessage
list_messages query s =
    sort_by (λ (m : InboundMessage). m.created_at)
      (filter (λ (m : InboundMessage). fits query.status m.status)
        (filter (λ (m : InboundMessage). fits query.session_id m.session_id)
          (filter (λ (m : InboundMessage). fits query.endpoint_id m.endpoint_id)
            (values s.messages))))

unfoldable pub export_messages : Store → List InboundMessage
unfolding list_messages
export_messages s =
    list_messages (record { endpoint_id = none; session_id = none; status = none }) s

-- `hydrateMessages`: what is not a record of an inbound message is refused before it comes here.
unfoldable pub hydrate_messages : List InboundMessage → Store → ℕ × Store
hydrate_messages [] s = (0, s)
hydrate_messages (m ∷ ms) s = elim (validate_inbound_message m) [
  | [] ↦ (let (n, t) = hydrate_messages ms (save m s) in (suc n, t))
  | _ ∷ _ ↦ hydrate_messages ms s
]
