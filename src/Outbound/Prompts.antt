-- ===== src/Outbound/Prompts.antt =====
-- The outbound prompts of packages/shared/src/types.ts, and what `assertOutboundPrompt` of
-- packages/shared/src/schemas.ts can still refuse of a record of that type. Fields whose type is one
-- literal, such as `target`, are left out.
use cli_bridge.Common.{
  ℕ, ◌≡◌, ◌↔◌, Bool, true, false, String, Option, none, some, List, [], ◌∷◌, ◌++◌, arith,
  if◌then◌else◌, Eq, nat_eq, string_eq, or_else, is_blank, concat, truthy,
}
use text.Mathlib.Text.{starts_with}
use Prim.Native.String.{◌++◌ as append}

pub data OutboundStatus : Type 0 where
  queued claimed delivered waiting_manual_send submitted responding response_ready returned
        completed expired failed cancelled :
      OutboundStatus

abbrev pub status_beq : OutboundStatus → OutboundStatus → Bool
status_beq queued queued = true
status_beq queued _ = false
status_beq claimed claimed = true
status_beq claimed _ = false
status_beq delivered delivered = true
status_beq delivered _ = false
status_beq waiting_manual_send waiting_manual_send = true
status_beq waiting_manual_send _ = false
status_beq submitted submitted = true
status_beq submitted _ = false
status_beq responding responding = true
status_beq responding _ = false
status_beq response_ready response_ready = true
status_beq response_ready _ = false
status_beq returned returned = true
status_beq returned _ = false
status_beq completed completed = true
status_beq completed _ = false
status_beq expired expired = true
status_beq expired _ = false
status_beq failed failed = true
status_beq failed _ = false
status_beq cancelled cancelled = true
status_beq cancelled _ = false

pub status_beq_iff : (a b : OutboundStatus) → (status_beq a b ≡ true) ↔ (a ≡ b)
status_beq_iff a b = ground arith

instance abbrev pub status_eq : Eq OutboundStatus
status_eq = record { same = status_beq; same_iff = status_beq_iff }

pub record Evidence : Type 0 where
  pub type : String
  pub at : ℕ
  pub reason : Option String

pub record Authorization : Type 0 where
  pub content_hash : String
  pub expires_at : ℕ

pub record OutboundPrompt : Type 0 where
  pub id : String
  pub session_id : String
  pub packet_id : String
  pub prompt : String
  pub status : OutboundStatus
  pub loop_id : Option String
  pub endpoint_id : Option String
  pub created_at : ℕ
  pub updated_at : ℕ
  pub claimed_at : Option ℕ
  pub claim_token : Option String
  pub authorization : Authorization
  pub open authorization use *
  pub delivered_at : Option ℕ
  pub waiting_at : Option ℕ
  pub submitted_at : Option ℕ
  pub responding_at : Option ℕ
  pub response_ready_at : Option ℕ
  pub returned_at : Option ℕ
  pub completed_at : Option ℕ
  pub expired_at : Option ℕ
  pub failed_at : Option ℕ
  pub cancelled_at : Option ℕ
  pub failure_reason : Option String
  pub evidence : Option (List Evidence)

-- `appendEvidence`
unfoldable pub append_evidence : String → ℕ → Option String → OutboundPrompt → OutboundPrompt
append_evidence type at reason p = record p {
  evidence =
      some (or_else p.evidence [] ++ record { type = type; at = at; reason = truthy reason } ∷ []);
}

unfoldable pub required : String → String → List String
required key value = if is_blank value then append key " must be a non-empty string" ∷ [] else []

optional : String → Option String → List String
optional key none = []
optional key (some value) =
    if is_blank value then append key " must be a non-empty string when present" ∷ [] else []

hash_errors : String → List String
hash_errors hash =
    if starts_with hash "sha256:"
    then []
    else "authorization.contentHash must be a sha256 string" ∷ []

evidence_errors : List Evidence → List String
evidence_errors [] = []
evidence_errors (e ∷ es) =
    (if is_blank e.type then "evidence.type must be a non-empty string" ∷ [] else [])
    ++ evidence_errors es

-- `validateOutboundPrompt`: its list of errors, for what the types leave open.
unfoldable pub validate_outbound_prompt : OutboundPrompt → List String
unfolding required optional hash_errors evidence_errors
validate_outbound_prompt p = concat (
    required "id" p.id
    ∷ required "sessionId" p.session_id
    ∷ required "packetId" p.packet_id
    ∷ required "prompt" p.prompt
    ∷ optional "claimToken" p.claim_token
    ∷ hash_errors p.content_hash
    ∷ evidence_errors (or_else p.evidence [])
    ∷ optional "endpointId" p.endpoint_id
    ∷ optional "loopId" p.loop_id
    ∷ [])
