-- ===== src/Endpoints/Registry.antt =====
-- The operations of `InMemoryEndpointRegistry`.
use cli_bridge.Common.{
  Attempt, made, thrown, ℕ, Bool, false, String, Option, none, some, List, [], ◌∷◌, if◌then◌else◌,
  ◌==◌, nat_eq, string_eq, or_else, filter, Map, get, set, values,
}
use cli_bridge.Endpoints.Model.{
  EndpointAction, accept_prompt, return_output, review, execute, summarize, receive_inbound,
  EndpointStatus, online, offline, endpoint_status_eq, AgentEndpoint, validate_agent_endpoint,
}

abbrev pub Registry : Type 0
Registry = Map AgentEndpoint

pub data RegistryFailure : Type 0 where
  duplicate_endpoint_id endpoint_not_found capability_denied endpoint_offline
        endpoint_already_offline :
      RegistryFailure

pub data RegistryResult : Type 0 where
  ok : RegistryResult
  refused : RegistryFailure → RegistryResult

-- `endpoint.status === status`
abbrev pub stands : EndpointStatus → AgentEndpoint → Bool
stands status e = elim e.status [ none ↦ false | some at ↦ at == status ]

unfoldable pub capability_for_action : AgentEndpoint → EndpointAction → Bool
capability_for_action e accept_prompt = e.can_accept_prompt
capability_for_action e return_output = e.can_return_output
capability_for_action e review = e.can_review
capability_for_action e execute = e.can_execute
capability_for_action e summarize = e.can_summarize
capability_for_action e receive_inbound = or_else e.can_receive_inbound false

abbrev pub seen : EndpointStatus → ℕ → AgentEndpoint → AgentEndpoint
seen status now e = record e { status = some status; last_seen_at = some now }

-- What `register` does after `assertAgentEndpoint`, by the errors that it found.
unfoldable pub admit :
    AgentEndpoint → ℕ → Registry → List String → Attempt RegistryResult × Registry
admit e now r (x ∷ xs) = (thrown (x ∷ xs), r)
admit e now r [] = elim (get e.id r) [
  | some old ↦ (made (refused duplicate_endpoint_id), r)
  | none ↦ (made ok, set e.id (seen online now e) r)
]

unfoldable pub register : AgentEndpoint → ℕ → Registry → Attempt RegistryResult × Registry
unfolding admit
register e now r = admit e now r (validate_agent_endpoint e)

-- `new InMemoryEndpointRegistry(endpoints)`, which throws when a registration throws.
unfoldable pub registry_of : List AgentEndpoint → ℕ → Registry → Attempt Registry
unfolding register
registry_of [] now r = made r
registry_of (e ∷ es) now r =
    let (result, t) = register e now r in
    elim result [ thrown errors ↦ thrown errors | made _ ↦ registry_of es now t ]

unfoldable pub get_endpoint : String → Registry → Option AgentEndpoint
get_endpoint id r = get id r

unfoldable pub list_endpoints : Registry → List AgentEndpoint
list_endpoints r = values r

unfoldable pub can : String → EndpointAction → Registry → Bool
unfolding capability_for_action
can id action r = elim (get id r) [ none ↦ false | some e ↦ capability_for_action e action ]

unfoldable pub validate_action : String → EndpointAction → Registry → RegistryResult
unfolding capability_for_action
validate_action id action r = elim (get id r) [
  | none ↦ refused endpoint_not_found
  | some e ↦
      if stands offline e
      then refused endpoint_offline
      else (if capability_for_action e action then ok else refused capability_denied)
]

unfoldable pub heartbeat : String → ℕ → Registry → RegistryResult × Registry
heartbeat id now r = elim (get id r) [
  | none ↦ (refused endpoint_not_found, r)
  | some e ↦
      if stands offline e then (refused endpoint_offline, r) else (ok, set id (seen online now e) r)
]

unfoldable pub take_offline : String → ℕ → Registry → RegistryResult × Registry
take_offline id now r = elim (get id r) [
  | none ↦ (refused endpoint_not_found, r)
  | some e ↦
      if stands offline e
      then (refused endpoint_already_offline, r)
      else (ok, set id (seen offline now e) r)
]

unfoldable pub list_online : Registry → List AgentEndpoint
list_online r = filter (stands online) (values r)

abbrev pub is_of_project : String → AgentEndpoint → Bool
is_of_project ref e = elim e.project_ref [ none ↦ false | some at ↦ at == ref ]

unfoldable pub list_by_project : String → Registry → List AgentEndpoint
list_by_project ref r = filter (is_of_project ref) (values r)
