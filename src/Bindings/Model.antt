-- ===== src/Bindings/Model.antt =====
-- `RunEndpointBinding` of packages/shared/src/types.ts, and what `validateRunEndpointBinding` of
-- packages/shared/src/schemas.ts can still refuse of a record of that type. The tiers are texts, since
-- the store tests them; whole numbers are natural numbers.
use cli_bridge.Common.{
  ℕ, Bool, ◌||◌, String, Option, List, [], ◌∷◌, ◌++◌, if◌then◌else◌, ◌==◌, nat_eq, string_eq,
}
use text.Mathlib.Text.{starts_with}
use cli_bridge.Endpoints.Model.{EndpointTransport, AgentEndpoint}

pub record EndpointRef : Type 0 where
  pub id : String
  pub label : String
  pub transport : EndpointTransport
  pub can_execute : Bool

pub record RunEndpointBinding : Type 0 where
  pub goal_id : String
  pub plan_id : String
  pub parent_plan_id : Option String
  pub reasoning_endpoint_id : String
  pub execution_endpoint_id : String
  pub reasoning_endpoint : EndpointRef
  pub execution_endpoint : EndpointRef
  pub reasoning_tier : String
  pub execution_tier : String
  pub execution_permission_profile : String
  pub execution_working_directory_ref : String
  pub max_steps : ℕ
  pub max_reasoning_rounds : ℕ
  pub deadline_at : String
  pub created_at : ℕ
  pub updated_at : ℕ
  pub binding_hash : String
  pub locked_at : Option ℕ

-- `endpointRef`
unfoldable pub endpoint_ref : AgentEndpoint → EndpointRef
endpoint_ref e = record {
  id = e.id;
  label = e.label;
  transport = e.transport;
  can_execute = e.can_execute;
}

-- What the bindings take from the platform: the digest, `JSON.stringify` of a text and of a whole
-- number, whether `Date.parse` reads a text, and whether a project is known.
pub record Platform : Type 0 where
  pub sha256_hex : String → String
  pub json_string : String → String
  pub json_number : ℕ → String
  pub is_date : String → Bool
  pub project_exists : String → Bool

abbrev pub check : Bool → String → List String
check passed error = if passed then [] else error ∷ []

abbrev pub is_reasoning_tier : String → Bool
is_reasoning_tier tier = tier == "high"

abbrev pub is_execution_tier : String → Bool
is_execution_tier tier = tier == "medium" || tier == "low"

-- `validateRunEndpointBinding`: its list of errors, for what the types leave open.
unfoldable pub validate_run_endpoint_binding : Platform → RunEndpointBinding → List String
validate_run_endpoint_binding env b =
    check (is_reasoning_tier b.reasoning_tier) "reasoningTier is invalid"
    ++ check (is_execution_tier b.execution_tier) "executionTier is invalid"
    ++ check (env.is_date b.deadline_at) "deadlineAt must be an ISO date string"
    ++ check (starts_with b.binding_hash "sha256:") "bindingHash must be a sha256 string"
