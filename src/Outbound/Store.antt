-- ===== src/Outbound/Store.antt =====
-- The operations of `InMemoryOutboundPromptStore`. An operation takes the time as an argument and
-- returns its result with the new state; the records that it returns are values, as the clones are.
use cli_bridge.Common.{
  Attempt, made, thrown, ℕ, ◌+◌, ◌-◌, Bool, true, false, ◌&&◌, String, Option, none, some, List, [],
  ◌∷◌, if◌then◌else◌, ltb, ◌==◌, nat_eq, string_eq, or_else, Map, set, map_values, truthy,
}
use cli_bridge.Services.Audit.{
  AuditEventType, create_outbound_prompt, RiskLevel, AuditInput, Outcome, Safety, succeeded,
}
use cli_bridge.Services.Packets.{
  BridgePacket, Services, id_or_uuid, create_packet, create_and_append, cli_output_review,
  PacketSource, PacketTarget, PacketStatus, Transport,
}
use cli_bridge.Outbound.Prompts.{
  OutboundStatus, queued, claimed, waiting_manual_send, returned, completed, expired, failed,
  cancelled, status_eq, OutboundPrompt, append_evidence, validate_outbound_prompt,
}

abbrev pub claimed_ttl : ℕ
claimed_ttl = 60000

abbrev pub authorization_ttl : ℕ
authorization_ttl = 600000

pub record Store : Type 0 where
  pub services : Services
  pub open services use *
  pub prompts : Map OutboundPrompt

pub record CreateInput : Type 0 where
  pub id : Option String
  pub session_id : String
  pub prompt : String
  pub endpoint_id : Option String
  pub loop_id : Option String
  pub expires_in : Option ℕ

-- The event that an operation on a prompt records.
abbrev pub prompt_event :
    AuditEventType → String → Option Safety → Outcome → ℕ → OutboundPrompt → AuditInput
prompt_event type source safety result now p = record {
  id = none;
  session_id = p.session_id;
  packet_id = some p.packet_id;
  approval_id = some p.id;
  project_id = none;
  team_id = none;
  slot_id = none;
  plan_step_id = none;
  goal_id = none;
  type = type;
  source = source;
  target = "chatgpt-web";
  snapshot = none;
  safety = safety;
  result = result;
  timestamp = now;
}

-- `prompts.set(prompt.id, clonePrompt(prompt))`
abbrev pub save : OutboundPrompt → Store → Store
save p s = record s { prompts = set p.id p s.prompts }

abbrev pub audit : AuditInput → Store → Store
audit input s = record s { services = create_and_append input s.services }

unfoldable pub new_prompt : CreateInput → BridgePacket → String → ℕ → OutboundPrompt
new_prompt input packet id now = record {
  id = id;
  session_id = input.session_id;
  packet_id = packet.id;
  prompt = packet.processed_content;
  status = queued;
  loop_id = truthy input.loop_id;
  endpoint_id = truthy input.endpoint_id;
  created_at = now;
  updated_at = now;
  claimed_at = none;
  claim_token = none;
  authorization = record {
    content_hash = packet.safety.content_hash;
    expires_at = now + or_else input.expires_in authorization_ttl;
  };
  delivered_at = none;
  waiting_at = none;
  submitted_at = none;
  responding_at = none;
  response_ready_at = none;
  returned_at = none;
  completed_at = none;
  expired_at = none;
  failed_at = none;
  cancelled_at = none;
  failure_reason = none;
  evidence = none;
}

abbrev pub packet_safety : BridgePacket → Safety
packet_safety packet = record {
  content_hash = some packet.safety.content_hash;
  redaction_summary = some packet.safety.redaction_summary;
  risk_level = some (if packet.safety.blocked then RiskLevel.high else RiskLevel.medium);
}

abbrev pub creation_event : BridgePacket → ℕ → OutboundPrompt → AuditInput
creation_event packet now p =
    prompt_event create_outbound_prompt "local-server" (some (packet_safety packet)) succeeded now p

unfoldable pub keep_prompt : BridgePacket → OutboundPrompt → ℕ → Store → OutboundPrompt × Store
unfolding append_evidence
keep_prompt packet p now s =
    let q = append_evidence "queued" now none p in
    (q, audit (creation_event packet now q) (save q s))

unfoldable pub prompt_packet : CreateInput → ℕ → Store → BridgePacket × Services
prompt_packet input now s =
    create_packet
      (record {
        id = none;
        session_id = input.session_id;
        source = PacketSource.codex;
        target = PacketTarget.chatgpt_web;
        kind = cli_output_review;
        raw_content = input.prompt;
        transport = some Transport.clipboard;
        status = some PacketStatus.confirmed;
      })
      now s.services

-- What is made after `assertOutboundPrompt`, by the errors that it found.
unfoldable pub finish :
    BridgePacket → OutboundPrompt → ℕ → Store → List String → Attempt OutboundPrompt × Store
finish packet p now s [] = (let (q, t) = keep_prompt packet p now s in (made q, t))
finish packet p now s (e ∷ es) = (thrown (e ∷ es), s)

-- A refused prompt leaves its packet behind.
unfoldable pub create : CreateInput → ℕ → Store → Attempt OutboundPrompt × Store
unfolding prompt_packet finish
create input now s =
    let (packet, services) = prompt_packet input now s in
    let (id, services') = id_or_uuid input.id services in
    let p : OutboundPrompt = new_prompt input packet id now in
    finish packet p now (record s { services = services' }) (validate_outbound_prompt p)

-- `['queued', 'claimed', 'waiting_manual_send'].includes(status)`
abbrev pub is_pending : OutboundStatus → Bool
is_pending queued = true
is_pending claimed = true
is_pending waiting_manual_send = true
is_pending _ = false

-- `['returned', 'completed', 'expired', 'failed', 'cancelled'].includes(status)`
abbrev pub is_terminal : OutboundStatus → Bool
is_terminal returned = true
is_terminal completed = true
is_terminal expired = true
is_terminal failed = true
is_terminal cancelled = true
is_terminal _ = false

unfoldable pub expire : ℕ → OutboundPrompt → OutboundPrompt
unfolding append_evidence
expire now p =
    append_evidence "expired" now none
      (record p { status = expired; expired_at = some now; updated_at = now })

abbrev pub lease_ended : ℕ → Option ℕ → Bool
lease_ended now none = false
lease_ended now (some at) = ltb claimed_ttl (now - at)

unfoldable pub end_lease : ℕ → OutboundPrompt → OutboundPrompt
end_lease now p = record p {
  status = failed;
  failed_at = some now;
  failure_reason = some "claim-lease-expired";
  claim_token = none;
  updated_at = now;
}

-- One round of the loop of `recoverStaleClaims`.
unfoldable pub recover_prompt : ℕ → OutboundPrompt → OutboundPrompt
unfolding expire end_lease
recover_prompt now p =
    if is_pending p.status && ltb p.expires_at now
    then expire now (record p { claim_token = none })
    else (if p.status == claimed && lease_ended now p.claimed_at then end_lease now p else p)

unfoldable pub recover_stale_claims : ℕ → Store → Store
recover_stale_claims now s = record s { prompts = map_values (recover_prompt now) s.prompts }
