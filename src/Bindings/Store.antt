-- ===== src/Bindings/Store.antt =====
-- The operations of `InMemoryAutomationBindingStore`. A call that throws answers with its message and
-- leaves the store as it was. The registry of endpoints is part of the state, since the store reads it.
use cli_bridge.Common.{
  Attempt, made, thrown, ℕ, Bool, not, ◌&&◌, ◌||◌, String, Option, none, some, List, [], ◌∷◌,
  if◌then◌else◌, leb, nat_eq, string_eq, or_else, is_some, Map, get, set, is_blank,
}
use cli_bridge.Bindings.Model.{
  RunEndpointBinding, endpoint_ref, Platform, is_reasoning_tier, is_execution_tier,
  validate_run_endpoint_binding,
}
use cli_bridge.Bindings.Hash.{hash_binding_fields}
use Prim.Native.String.{◌++◌ as append}
use cli_bridge.Endpoints.Model.{AgentEndpoint}
use cli_bridge.Endpoints.Registry.{Registry, get_endpoint}

pub record Store : Type 0 where
  pub platform : Platform
  pub open platform use *
  pub registry : Registry
  pub bindings : Map RunEndpointBinding

pub record CreateInput : Type 0 where
  pub goal_id : String
  pub plan_id : String
  pub parent_plan_id : Option String
  pub reasoning_endpoint_id : String
  pub execution_endpoint_id : String
  pub reasoning_tier : String
  pub execution_tier : String
  pub execution_permission_profile : String
  pub execution_working_directory_ref : String
  pub max_steps : ℕ
  pub max_reasoning_rounds : ℕ
  pub deadline_at : String

-- A change of a binding, and what a derived plan does not take over; `none` is a key that is not given.
pub record UpdateInput : Type 0 where
  pub reasoning_endpoint_id : Option String
  pub execution_endpoint_id : Option String
  pub reasoning_tier : Option String
  pub execution_tier : Option String
  pub execution_permission_profile : Option String
  pub execution_working_directory_ref : Option String
  pub max_steps : Option ℕ
  pub max_reasoning_rounds : Option ℕ
  pub deadline_at : Option String

-- A test and the message of the error that is thrown if it fails.
abbrev pub Test : Type 0
Test = Bool × String

abbrev required : String → String → Test
required key value = (not (is_blank value), append key " is required")

unfoldable pub failures : List Test → List String
failures [] = []
failures ((passed, error) ∷ tests) = if passed then failures tests else error ∷ failures tests

-- The tests of `validateInput`; the first that fails is the one that throws.
abbrev pub input_tests : CreateInput → Platform → List Test
input_tests input env =
    required "goalId" input.goal_id
    ∷ required "planId" input.plan_id
    ∷ required "reasoningEndpointId" input.reasoning_endpoint_id
    ∷ required "executionEndpointId" input.execution_endpoint_id
    ∷ required "executionPermissionProfile" input.execution_permission_profile
    ∷ required "executionWorkingDirectoryRef" input.execution_working_directory_ref
    ∷ required "deadlineAt" input.deadline_at
    ∷ (is_reasoning_tier input.reasoning_tier, "reasoningTier must be high")
    ∷ (is_execution_tier input.execution_tier, "executionTier must be medium or low")
    ∷ (env.project_exists input.execution_working_directory_ref, "project reference is unknown")
    ∷ (leb 1 input.max_steps && leb input.max_steps 50, "maxSteps must be between 1 and 50")
    ∷ (
      leb 1 input.max_reasoning_rounds && leb input.max_reasoning_rounds 20,
      "maxReasoningRounds must be between 1 and 20",
    )
    ∷ (env.is_date input.deadline_at, "deadlineAt must be an ISO date string")
    ∷ []

unfoldable pub input_errors : CreateInput → Platform → List String
unfolding failures
input_errors input env = failures (input_tests input env)

abbrev pub can_reason : AgentEndpoint → Bool
can_reason e = e.can_accept_prompt || e.can_review || e.can_summarize

unfoldable pub without_hash : CreateInput → AgentEndpoint → AgentEndpoint → ℕ → RunEndpointBinding
unfolding endpoint_ref
without_hash input reasoning execution now = record {
  goal_id = input.goal_id;
  plan_id = input.plan_id;
  parent_plan_id = input.parent_plan_id;
  reasoning_endpoint_id = input.reasoning_endpoint_id;
  execution_endpoint_id = input.execution_endpoint_id;
  reasoning_endpoint = endpoint_ref reasoning;
  execution_endpoint = endpoint_ref execution;
  reasoning_tier = input.reasoning_tier;
  execution_tier = input.execution_tier;
  execution_permission_profile = input.execution_permission_profile;
  execution_working_directory_ref = input.execution_working_directory_ref;
  max_steps = input.max_steps;
  max_reasoning_rounds = input.max_reasoning_rounds;
  deadline_at = input.deadline_at;
  created_at = now;
  updated_at = now;
  binding_hash = "";
  locked_at = none;
}

-- `{ ...withoutHash, bindingHash: hashBindingFields(withoutHash) }`
unfoldable pub hashed : Platform → RunEndpointBinding → RunEndpointBinding
hashed env b = record b { binding_hash = hash_binding_fields env b }

-- `assertRunEndpointBinding`
unfoldable pub asserted : Platform → RunEndpointBinding → Attempt RunEndpointBinding
asserted env b = elim (validate_run_endpoint_binding env b) [
  | [] ↦ made b
  | e ∷ es ↦ thrown (e ∷ es)
]

unfoldable pub bind :
    CreateInput → AgentEndpoint → AgentEndpoint → ℕ → Platform → Attempt RunEndpointBinding
unfolding without_hash hashed asserted
bind input reasoning execution now env =
    if can_reason reasoning
    then (if execution.can_execute
        then asserted env (hashed env (without_hash input reasoning execution now))
        else thrown ("execution endpoint must have canExecute=true" ∷ []))
    else thrown ("reasoning endpoint lacks reasoning capability" ∷ [])

unfoldable pub find_endpoints : CreateInput → ℕ → Store → Attempt RunEndpointBinding
unfolding bind get_endpoint
find_endpoints input now s = elim (get_endpoint input.reasoning_endpoint_id s.registry) [
  | none ↦ thrown ("reasoning endpoint not found" ∷ [])
  | some reasoning ↦ elim (get_endpoint input.execution_endpoint_id s.registry) [
    | none ↦ thrown ("execution endpoint not found" ∷ [])
    | some execution ↦ bind input reasoning execution now s.platform
  ]
]

unfoldable pub build_binding : CreateInput → ℕ → Store → Attempt RunEndpointBinding
unfolding find_endpoints input_errors
build_binding input now s = elim (input_errors input s.platform) [
  | [] ↦ find_endpoints input now s
  | e ∷ es ↦ thrown (e ∷ [])
]

-- `bindingsByPlan.set(planId, clone(binding))`, if the binding was made.
unfoldable pub keep :
    String → Store → Attempt RunEndpointBinding → Attempt RunEndpointBinding × Store
keep plan_id s (thrown es) = (thrown es, s)
keep plan_id s (made b) = (made b, record s { bindings = set plan_id b s.bindings })

-- `{ ...existing, ...input, goalId, planId, parentPlanId }`
unfoldable pub merged : RunEndpointBinding → UpdateInput → CreateInput
merged b input = record {
  goal_id = b.goal_id;
  plan_id = b.plan_id;
  parent_plan_id = b.parent_plan_id;
  reasoning_endpoint_id = or_else input.reasoning_endpoint_id b.reasoning_endpoint_id;
  execution_endpoint_id = or_else input.execution_endpoint_id b.execution_endpoint_id;
  reasoning_tier = or_else input.reasoning_tier b.reasoning_tier;
  execution_tier = or_else input.execution_tier b.execution_tier;
  execution_permission_profile =
      or_else input.execution_permission_profile b.execution_permission_profile;
  execution_working_directory_ref =
      or_else input.execution_working_directory_ref b.execution_working_directory_ref;
  max_steps = or_else input.max_steps b.max_steps;
  max_reasoning_rounds = or_else input.max_reasoning_rounds b.max_reasoning_rounds;
  deadline_at = or_else input.deadline_at b.deadline_at;
}

unfoldable pub update_binding :
    String → UpdateInput → ℕ → Store → Attempt RunEndpointBinding × Store
unfolding build_binding keep merged
update_binding plan_id input now s = elim (get plan_id s.bindings) [
  | none ↦ (thrown ("binding not found" ∷ []), s)
  | some b ↦
      if is_some b.locked_at
      then (thrown ("binding is locked" ∷ []), s)
      else keep plan_id s (build_binding (merged b input) now s)
]

unfoldable pub whole : CreateInput → UpdateInput
whole input = record {
  reasoning_endpoint_id = some input.reasoning_endpoint_id;
  execution_endpoint_id = some input.execution_endpoint_id;
  reasoning_tier = some input.reasoning_tier;
  execution_tier = some input.execution_tier;
  execution_permission_profile = some input.execution_permission_profile;
  execution_working_directory_ref = some input.execution_working_directory_ref;
  max_steps = some input.max_steps;
  max_reasoning_rounds = some input.max_reasoning_rounds;
  deadline_at = some input.deadline_at;
}

unfoldable pub create_binding : CreateInput → ℕ → Store → Attempt RunEndpointBinding × Store
unfolding build_binding keep update_binding whole
create_binding input now s = elim (get input.plan_id s.bindings) [
  | some b ↦ update_binding input.plan_id (whole input) now s
  | none ↦ keep input.plan_id s (build_binding input now s)
]
