-- ===== src/Inbound/Model.antt =====
-- The inbound messages of packages/shared/src/types.ts, and what `assertInboundMessage` of
-- packages/shared/src/schemas.ts can still refuse of a record of that type. The source of a message is
-- always `chatgpt-web-extract`.
use cli_bridge.Common.{
  ℕ, ◌≡◌, ◌↔◌, Bool, true, false, String, Option, List, [], ◌∷◌, arith, Eq, nat_eq, string_eq,
}
use cli_bridge.Common.{concat}
use cli_bridge.Outbound.Prompts.{required}

pub data InboundStatus : Type 0 where
  queued claimed consumed failed cancelled : InboundStatus

abbrev pub inbound_status_beq : InboundStatus → InboundStatus → Bool
inbound_status_beq queued queued = true
inbound_status_beq queued _ = false
inbound_status_beq claimed claimed = true
inbound_status_beq claimed _ = false
inbound_status_beq consumed consumed = true
inbound_status_beq consumed _ = false
inbound_status_beq failed failed = true
inbound_status_beq failed _ = false
inbound_status_beq cancelled cancelled = true
inbound_status_beq cancelled _ = false

pub inbound_status_beq_iff : (a b : InboundStatus) → (inbound_status_beq a b ≡ true) ↔ (a ≡ b)
inbound_status_beq_iff a b = ground arith

instance abbrev pub inbound_status_eq : Eq InboundStatus
inbound_status_eq = record { same = inbound_status_beq; same_iff = inbound_status_beq_iff }

pub record InboundMessage : Type 0 where
  pub id : String
  pub endpoint_id : String
  pub session_id : String
  pub packet_id : String
  pub content : String
  pub source_outbound_prompt_id : Option String
  pub status : InboundStatus
  pub created_at : ℕ
  pub updated_at : ℕ
  pub claimed_at : Option ℕ
  pub consumed_at : Option ℕ
  pub failed_at : Option ℕ
  pub cancelled_at : Option ℕ
  pub failure_reason : Option String

-- `TERMINAL_STATUSES.has(status)`
abbrev pub is_terminal : InboundStatus → Bool
is_terminal queued = false
is_terminal claimed = false
is_terminal consumed = true
is_terminal failed = true
is_terminal cancelled = true

-- `validateInboundMessage`: its list of errors, for what the types leave open.
unfoldable pub validate_inbound_message : InboundMessage → List String
unfolding required
validate_inbound_message m = concat (
    required "id" m.id
    ∷ required "endpointId" m.endpoint_id
    ∷ required "sessionId" m.session_id
    ∷ required "packetId" m.packet_id
    ∷ required "content" m.content
    ∷ [])
