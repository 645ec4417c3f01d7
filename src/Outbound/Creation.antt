-- ===== src/Outbound/Creation.antt =====
-- What `createOutboundPrompt` stores, and what it leaves behind when it throws.
use cli_bridge.Common.{
  Attempt, made, thrown, ℕ, ◌+◌, ◌≡◌, refl, ap, ◌∙◌, ◌≢◌, false, String, Option, none, some, List,
  [], ◌∷◌, ◌++◌, arith, nat_eq, string_eq, or_else, get, get-set_self, is_blank,
}
use cli_bridge.Outbound.Prompts.{queued, status_eq, OutboundPrompt, append_evidence}
use cli_bridge.Services.Packets.{
  Services, BridgePacket, create_packet, id_or_uuid, create_and_append, create_audit_event,
  create_content_hash,
}
use cli_bridge.Services.Redaction.{redact_sensitive_content, RedactionResult}
use cli_bridge.Outbound.Store.{
  Store, CreateInput, create, new_prompt, keep_prompt, creation_event, finish, prompt_packet,
  authorization_ttl,
}
use cli_bridge.Outbound.Calls.{created_id}
use cli_bridge.Services.Audit.{AuditEvent, create_outbound_prompt}
use cli_bridge.Outbound.Prompts.{validate_outbound_prompt, required}

abbrev pub redacted : CreateInput → Store → RedactionResult
redacted input s = redact_sensitive_content s.rules input.prompt

-- The outcome of a creation, on both branches.
abbrev pub Creates : CreateInput → ℕ → Store → Attempt OutboundPrompt × Store → Type 0
Creates input now s (made q, t) =
    (q.prompt ≡ (redacted input s).processed_content)
    × (q.content_hash ≡ create_content_hash s.env (redacted input s).processed_content)
    × (q.status ≡ queued)
    × (q.id ≡ created_id input s)
    × (q.expires_at ≡ now + or_else input.expires_in authorization_ttl)
    × (is_blank q.prompt ≡ false)
    × (get q.id t.prompts ≡ some q)
    × ((packet : BridgePacket) × (get q.packet_id t.packets ≡ some packet)
        × (packet.processed_content ≡ q.prompt)
        × (packet.safety.content_hash ≡ q.content_hash))
    × ((e : AuditEvent) × (t.events ≡ s.events ++ e ∷ [])
        × (e.approval_id ≡ some q.id)
        × (e.type ≡ create_outbound_prompt))
Creates input now s (thrown errors, t) =
    (errors ≢ []) × (t.prompts ≡ s.prompts) × (t.events ≡ s.events)

append-eq_nil : (xs ys : List String) → xs ++ ys ≡ [] → (xs ≡ []) × (ys ≡ [])
append-eq_nil [] ys e = (refl, e)
append-eq_nil (x ∷ xs) ys e = absurd (cc)

required_full : (key value : String) → required key value ≡ [] → is_blank value ≡ false
unfolding required
required_full key value e = ground arith

valid_prompt : (p : OutboundPrompt) → validate_outbound_prompt p ≡ [] → is_blank p.prompt ≡ false
unfolding validate_outbound_prompt
valid_prompt p e =
    let rest = append-eq_nil (required "id" p.id) _ e in
    let rest' = append-eq_nil (required "sessionId" p.session_id) _ rest.1 in
    let rest'' = append-eq_nil (required "packetId" p.packet_id) _ rest'.1 in
    required_full "prompt" p.prompt (append-eq_nil (required "prompt" p.prompt) _ rest''.1).0

-- What holds of a draft before it is validated.
record IsDraft (input : CreateInput) (now : ℕ) (s t : Store) (packet : BridgePacket)
    (p : OutboundPrompt) : Type 0 where
  text : p.prompt ≡ (redacted input s).processed_content
  hash : p.content_hash ≡ create_content_hash s.env (redacted input s).processed_content
  status : p.status ≡ queued
  id : p.id ≡ created_id input s
  expiry : p.expires_at ≡ now + or_else input.expires_in authorization_ttl
  kept : get p.packet_id t.packets ≡ some packet
  packet_text : packet.processed_content ≡ p.prompt
  packet_hash : packet.safety.content_hash ≡ p.content_hash
  same_prompts : t.prompts ≡ s.prompts
  same_events : t.events ≡ s.events

finish-Creates :
    (input : CreateInput) (now : ℕ) (s t : Store) (packet : BridgePacket) (p : OutboundPrompt)
    → IsDraft input now s t packet p
    → (errors : List String) → validate_outbound_prompt p ≡ errors
    → Creates input now s (finish packet p now t errors)
unfolding finish keep_prompt create_and_append id_or_uuid
finish-Creates input now s t packet p d [] e =
    let event : AuditEvent =
      create_audit_event (creation_event packet now (append_evidence "queued" now none p))
        (t.uuid t.drawn) in
    (
      d.text,
      d.hash,
      d.status,
      d.id,
      d.expiry,
      valid_prompt p e,
      get-set_self p.id _ t.prompts,
      (packet, d.kept, d.packet_text, d.packet_hash),
      (event, ap (λ es. es ++ event ∷ []) d.same_events, refl, refl),
    )
finish-Creates input now s t packet p d (x ∷ xs) e = (cc, d.same_prompts, d.same_events)

drawn_id :
    (given : Option String) (t : Services) → (id_or_uuid given t).0 ≡ or_else given (t.uuid t.drawn)
unfolding id_or_uuid
drawn_id none t = refl
drawn_id (some id) t = refl

drawn_packets :
    (given : Option String) (t : Services)
    → ((id_or_uuid given t).1.packets ≡ t.packets) × ((id_or_uuid given t).1.events ≡ t.events)
unfolding id_or_uuid
drawn_packets none t = (refl, refl)
drawn_packets (some id) t = (refl, refl)

-- A created prompt is queued under a fresh authorisation for the redacted text and its digest, the
-- packet with that text is kept, and one audit event is added that names the prompt; a creation that
-- throws has found an error, and adds neither a prompt nor an event.
pub create-Creates :
    (input : CreateInput) (now : ℕ) (s : Store) → Creates input now s (create input now s)
unfolding create prompt_packet create_packet new_prompt
create-Creates input now s =
    let (packet, t) = prompt_packet input now s in
    let (id, t') = id_or_uuid input.id t in
    finish-Creates input now s (record s { services = t' }) packet (new_prompt input packet id now)
      (record {
        text = refl;
        hash = refl;
        status = refl;
        id = drawn_id input.id t;
        expiry = refl;
        kept =
            ap (get packet.id) (drawn_packets input.id t).0
            ∙ get-set_self packet.id packet s.packets;
        packet_text = refl;
        packet_hash = refl;
        same_prompts = refl;
        same_events = (drawn_packets input.id t).1;
      })
      _ refl
