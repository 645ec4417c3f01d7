-- ===== src/Endpoints/Model.antt =====
-- The endpoints of packages/shared/src/types.ts, and what `assertAgentEndpoint` of
-- packages/shared/src/schemas.ts can still refuse of a record of that type.
use cli_bridge.Common.{
  ℕ, ◌≡◌, ◌↔◌, Bool, true, false, String, Option, List, ◌++◌, arith, Eq, nat_eq, string_eq,
}
use cli_bridge.Outbound.Prompts.{required}

pub data EndpointTransport : Type 0 where
  mock clipboard command managed_pty file_protocol web_dom terminal workbuddy : EndpointTransport

pub data EndpointRisk : Type 0 where
  low medium high experimental : EndpointRisk

pub data EndpointAction : Type 0 where
  accept_prompt return_output review execute summarize receive_inbound : EndpointAction

pub data EndpointStatus : Type 0 where
  online offline busy : EndpointStatus

abbrev pub endpoint_status_beq : EndpointStatus → EndpointStatus → Bool
endpoint_status_beq online online = true
endpoint_status_beq online _ = false
endpoint_status_beq offline offline = true
endpoint_status_beq offline _ = false
endpoint_status_beq busy busy = true
endpoint_status_beq busy _ = false

pub endpoint_status_beq_iff : (a b : EndpointStatus) → (endpoint_status_beq a b ≡ true) ↔ (a ≡ b)
endpoint_status_beq_iff a b = ground arith

instance abbrev pub endpoint_status_eq : Eq EndpointStatus
endpoint_status_eq = record { same = endpoint_status_beq; same_iff = endpoint_status_beq_iff }

pub record Capabilities : Type 0 where
  pub can_accept_prompt : Bool
  pub can_return_output : Bool
  pub can_review : Bool
  pub can_execute : Bool
  pub can_summarize : Bool
  pub can_receive_inbound : Option Bool
  pub can_use_managed_writeback : Option Bool

pub record AgentEndpoint : Type 0 where
  pub id : String
  pub label : String
  pub transport : EndpointTransport
  pub risk : EndpointRisk
  pub capabilities : Capabilities
  pub open capabilities use *
  pub adapter_name : Option String
  pub experimental : Option Bool
  pub project_ref : Option String
  pub status : Option EndpointStatus
  pub last_seen_at : Option ℕ

-- `validateAgentEndpoint`: its list of errors, for what the types leave open.
unfoldable pub validate_agent_endpoint : AgentEndpoint → List String
unfolding required
validate_agent_endpoint e = required "id" e.id ++ required "label" e.label
