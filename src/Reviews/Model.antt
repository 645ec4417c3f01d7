-- ===== src/Reviews/Model.antt =====
-- The reviews of packages/shared/src/types.ts, and what the validators of packages/shared/src/schemas.ts
-- can still refuse of records of these types.
use cli_bridge.Common.{
  ℕ, ◌≡◌, ◌↔◌, Bool, true, false, String, Option, List, [], ◌∷◌, arith, Eq, nat_eq, string_eq,
}
use cli_bridge.Common.{concat}
use cli_bridge.Outbound.Prompts.{required}

pub data AgentReviewStatus : Type 0 where
  draft previewed confirmed sent returned cancelled failed : AgentReviewStatus

abbrev pub agent_review_status_beq : AgentReviewStatus → AgentReviewStatus → Bool
agent_review_status_beq draft draft = true
agent_review_status_beq draft _ = false
agent_review_status_beq previewed previewed = true
agent_review_status_beq previewed _ = false
agent_review_status_beq confirmed confirmed = true
agent_review_status_beq confirmed _ = false
agent_review_status_beq sent sent = true
agent_review_status_beq sent _ = false
agent_review_status_beq returned returned = true
agent_review_status_beq returned _ = false
agent_review_status_beq cancelled cancelled = true
agent_review_status_beq cancelled _ = false
agent_review_status_beq failed failed = true
agent_review_status_beq failed _ = false

pub agent_review_status_beq_iff :
    (a b : AgentReviewStatus) → (agent_review_status_beq a b ≡ true) ↔ (a ≡ b)
agent_review_status_beq_iff a b = ground arith

instance abbrev pub agent_review_status_eq : Eq AgentReviewStatus
agent_review_status_eq = record {
  same = agent_review_status_beq;
  same_iff = agent_review_status_beq_iff;
}

pub record AgentReviewRequest : Type 0 where
  pub id : String
  pub session_id : String
  pub source_endpoint_id : String
  pub target_endpoint_id : String
  pub packet_id : String
  pub project_id : Option String
  pub status : AgentReviewStatus
  pub prompt : String
  pub created_at : ℕ
  pub updated_at : ℕ
  pub confirmed_at : Option ℕ
  pub sent_at : Option ℕ
  pub returned_at : Option ℕ
  pub cancelled_at : Option ℕ
  pub failed_at : Option ℕ
  pub failure_reason : Option String

pub record AgentReviewResult : Type 0 where
  pub id : String
  pub review_request_id : String
  pub summary : String
  pub findings : List String
  pub next_prompt_draft : Option String
  pub created_at : ℕ

-- `validateAgentReviewRequest`: its list of errors, for what the types leave open.
unfoldable pub validate_agent_review_request : AgentReviewRequest → List String
unfolding required
validate_agent_review_request r = concat (
    required "id" r.id
    ∷ required "sessionId" r.session_id
    ∷ required "sourceEndpointId" r.source_endpoint_id
    ∷ required "targetEndpointId" r.target_endpoint_id
    ∷ required "packetId" r.packet_id
    ∷ required "prompt" r.prompt
    ∷ [])

-- `validateAgentReviewResult`: its list of errors, for what the types leave open.
unfoldable pub validate_agent_review_result : AgentReviewResult → List String
unfolding required
validate_agent_review_result r = concat (
    required "id" r.id
    ∷ required "reviewRequestId" r.review_request_id
    ∷ required "summary" r.summary
    ∷ [])
