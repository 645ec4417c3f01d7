-- ===== src/Pending/Store.antt =====
-- `InMemoryPendingPromptStore`, with its objects: the map leads to objects by their address, an operation
-- writes to the object that the map leads to and then lets it lead to a clone. The code that waits for a
-- delivery holds such an address; the records that operations return are values, as the clones are.
use cli_bridge.Common.{
  ℕ, suc, Bool, true, false, ◌||◌, String, Option, none, some, List, [], ◌∷◌, if◌then◌else◌, ◌==◌,
  nat_eq, string_eq, or_else, Map, get, set, values,
}
use cli_bridge.Services.Audit.{
  AuditEventType, create_pending_prompt, confirm_prompt, copy_to_clipboard, operation_cancelled,
  RiskLevel, AuditInput, Outcome, Snapshot, no_snapshot, succeeded,
}
use cli_bridge.Services.Packets.{
  BridgePacket, Services, id_or_uuid, create_packet, create_and_append, PacketKind, PacketSource,
  PacketTarget, Transport,
}
use cli_bridge.Pending.Model.{
  PendingPromptStatus, draft, previewed, confirmed, sent, failed, cancelled,
  pending_prompt_status_eq, PendingPrompt, manual_paste_checklist, source_text, target_text,
  transport_text,
}

pub record Store : Type 0 where
  pub services : Services
  pub open services use *
  pub objects : ℕ → Option PendingPrompt
  pub allocated : ℕ
  pub prompts : Map ℕ

-- The object at an address that may be missing.
abbrev pub deref : Option ℕ → Store → Option (ℕ × PendingPrompt)
deref none s = none
deref (some at) s = elim (s.objects at) [ none ↦ none | some p ↦ some (at, p) ]

-- `prompts.get(id)`: the address and what the object there holds.
unfoldable pub lookup : String → Store → Option (ℕ × PendingPrompt)
lookup id s = deref (get id s.prompts) s

abbrev write : ℕ → PendingPrompt → (ℕ → Option PendingPrompt) → ℕ → Option PendingPrompt
write at p objects j = if j == at then some p else objects j

-- The object at the address becomes `p`, and the map leads to a clone: `prompts.set(id, clone(p))`.
unfoldable pub put : ℕ → PendingPrompt → Store → Store
put at p s = record s {
  objects = write s.allocated p (write at p s.objects);
  allocated = suc s.allocated;
  prompts = set p.id s.allocated s.prompts;
}

-- `auditLog.createAndAppend` about a prompt.
abbrev pub prompt_event :
    AuditEventType → String → String → Option Snapshot → Outcome → ℕ → PendingPrompt → AuditInput
prompt_event type source target snapshot result now p = record {
  id = none;
  session_id = p.session_id;
  packet_id = some p.packet_id;
  approval_id = none;
  project_id = p.project_id;
  team_id = none;
  slot_id = none;
  plan_step_id = none;
  goal_id = none;
  type = type;
  source = source;
  target = target;
  snapshot = snapshot;
  safety = none;
  result = result;
  timestamp = now;
}

abbrev pub audit : AuditInput → Store → Store
audit input s = record s { services = create_and_append input s.services }

-- The source is `chatgpt-web`, `user-selection` or `clipboard`.
pub record CreateInput : Type 0 where
  pub id : Option String
  pub session_id : String
  pub prompt : String
  pub source : Option PacketSource
  pub transport : Option Transport
  pub project_id : Option String

abbrev packet_target : Option Transport → PacketTarget
packet_target (some Transport.clipboard) = PacketTarget.clipboard
packet_target _ = PacketTarget.codex

unfoldable pub prompt_packet : CreateInput → ℕ → Services → BridgePacket × Services
prompt_packet input now services =
    create_packet
      (record {
        id = none;
        session_id = input.session_id;
        source = or_else input.source PacketSource.chatgpt_web;
        target = packet_target input.transport;
        kind = PacketKind.pending_prompt;
        raw_content = input.prompt;
        transport = some (or_else input.transport Transport.managed_pty);
        status = none;
      })
      now services

unfoldable pub new_prompt : CreateInput → BridgePacket → String → ℕ → PendingPrompt
new_prompt input packet id now = record {
  id = id;
  session_id = input.session_id;
  packet_id = packet.id;
  prompt = packet.processed_content;
  project_id = input.project_id;
  status = draft;
  transport = or_else input.transport Transport.managed_pty;
  clipboard_handoff = none;
  created_at = now;
  updated_at = now;
  confirmed_at = none;
  sent_at = none;
  cancelled_at = none;
  failed_at = none;
  failure_reason = none;
}

abbrev pub creation_event : BridgePacket → PendingPrompt → ℕ → AuditInput
creation_event packet p now =
    record (prompt_event create_pending_prompt (source_text packet.source)
      (target_text packet.target) none succeeded now p) {
        safety = some (record {
          content_hash = some packet.safety.content_hash;
          redaction_summary = some packet.safety.redaction_summary;
          risk_level = some (if packet.safety.blocked then RiskLevel.high else RiskLevel.low);
        });
      }

-- The new object is reached by the map alone: it is written to the next address.
unfoldable pub create : CreateInput → ℕ → Store → PendingPrompt × Store
unfolding prompt_packet new_prompt put
create input now s =
    let (packet, services) = prompt_packet input now s.services in
    let (id, services') = id_or_uuid input.id services in
    let p : PendingPrompt = new_prompt input packet id now in
    (p, audit (creation_event packet p now) (put s.allocated p (record s { services = services' })))

-- From every status.
unfoldable pub preview : String → ℕ → Store → Option PendingPrompt × Store
preview id now s = elim (lookup id s) [
  | none ↦ (none, s)
  | some (at, p) ↦
      (let q : PendingPrompt = record p { status = previewed; updated_at = now } in
        (some q, put at q s))
]

abbrev pub is_closed : PendingPromptStatus → Bool
is_closed status = status == cancelled || status == sent

unfoldable pub confirm : String → ℕ → Store → Option PendingPrompt × Store
confirm id now s = elim (lookup id s) [
  | none ↦ (none, s)
  | some (at, p) ↦
      if is_closed p.status
      then (none, s)
      else (let q : PendingPrompt = record p {
        status = confirmed;
        confirmed_at = some now;
        updated_at = now;
      } in
          let event =
            prompt_event confirm_prompt "local-server" (transport_text p.transport) none succeeded
              now q in
          (some q, audit event (put at q s)))
]

unfoldable pub cancel : String → ℕ → Store → Option PendingPrompt × Store
cancel id now s = elim (lookup id s) [
  | none ↦ (none, s)
  | some (at, p) ↦
      if p.status == sent
      then (none, s)
      else (let q : PendingPrompt = record p {
        status = cancelled;
        cancelled_at = some now;
        updated_at = now;
      } in
          let event =
            prompt_event operation_cancelled "local-server" (transport_text p.transport) none
              succeeded now q in
          (some q, audit event (put at q s)))
]

abbrev pub missing_prompt : String → ℕ → PendingPrompt
missing_prompt id now = record {
  id = id;
  session_id = "unknown";
  packet_id = "unknown";
  prompt = "";
  project_id = none;
  status = failed;
  transport = Transport.clipboard;
  clipboard_handoff = none;
  created_at = now;
  updated_at = now;
  confirmed_at = none;
  sent_at = none;
  cancelled_at = none;
  failed_at = some now;
  failure_reason = some "pending-prompt-not-found";
}

-- The checklist is `manual_paste_checklist` in every result.
pub record Handoff : Type 0 where
  pub ok : Bool
  pub prompt : PendingPrompt
  pub clipboard_text : Option String
  pub failure_reason : Option String

abbrev refused_handoff : PendingPrompt → String → Handoff
refused_handoff p reason = record {
  ok = false;
  prompt = p;
  clipboard_text = none;
  failure_reason = some reason;
}

-- `createClipboardHandoff`
unfoldable pub hand_off : String → String → ℕ → Store → Handoff × Store
hand_off id reason now s = elim (lookup id s) [
  | none ↦ (refused_handoff (missing_prompt id now) "pending-prompt-not-found", s)
  | some (at, p) ↦
      if p.status == confirmed
      then (let q : PendingPrompt = record p {
        transport = Transport.clipboard;
        clipboard_handoff = some (record {
          fallback_reason = reason;
          checklist = manual_paste_checklist;
          created_at = now;
        });
        updated_at = now;
      } in
          let event =
            prompt_event copy_to_clipboard "local-server" "clipboard"
              (some (record no_snapshot { transport = some "clipboard" }))
              (record { ok = true; failure_reason = some reason; metadata = none }) now q in
          (
            record { ok = true; prompt = q; clipboard_text = some p.prompt; failure_reason = none },
            audit event (put at q s),
          ))
      else (refused_handoff p "pending-prompt-not-confirmed", s)
]

unfoldable pub get_prompt : String → Store → Option PendingPrompt
get_prompt id s = elim (lookup id s) [ none ↦ none | some (at, p) ↦ some p ]

abbrev read_all : (ℕ → Option PendingPrompt) → List ℕ → List PendingPrompt
read_all objects [] = []
read_all objects (at ∷ ats) = elim (objects at) [
  | none ↦ read_all objects ats
  | some p ↦ p ∷ read_all objects ats
]

-- `listPrompts` and `exportPrompts`
unfoldable pub list_prompts : Store → List PendingPrompt
list_prompts s = read_all s.objects (values s.prompts)
