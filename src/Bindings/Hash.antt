-- ===== src/Bindings/Hash.antt =====
-- The digest of the fields of a binding that give authority: their stable JSON, with the keys in order.
use cli_bridge.Common.{String, Option, none, some, [], ◌∷◌, nat_eq, string_eq}
use Prim.Native.String.{◌++◌ as append}
use cli_bridge.Services.StableJson.{json_field, json_object}
use cli_bridge.Bindings.Model.{RunEndpointBinding, Platform}

-- `JSON.stringify(undefined)` is written as it prints.
abbrev optional_json : Platform → Option String → String
optional_json env none = "undefined"
optional_json env (some text) = env.json_string text

-- `hashBindingFields`, and so `computeAutomationBindingHash`
unfoldable pub hash_binding_fields : Platform → RunEndpointBinding → String
hash_binding_fields env b = append "sha256:" (
    env.sha256_hex (
      json_object (
        json_field env.json_string "deadlineAt" (env.json_string b.deadline_at)
        ∷ json_field env.json_string "executionEndpointId" (env.json_string b.execution_endpoint_id)
        ∷ json_field env.json_string "executionPermissionProfile"
            (env.json_string b.execution_permission_profile)
        ∷ json_field env.json_string "executionTier" (env.json_string b.execution_tier)
        ∷ json_field env.json_string "executionWorkingDirectoryRef"
            (env.json_string b.execution_working_directory_ref)
        ∷ json_field env.json_string "goalId" (env.json_string b.goal_id)
        ∷ json_field env.json_string "maxReasoningRounds" (env.json_number b.max_reasoning_rounds)
        ∷ json_field env.json_string "maxSteps" (env.json_number b.max_steps)
        ∷ json_field env.json_string "parentPlanId" (optional_json env b.parent_plan_id)
        ∷ json_field env.json_string "planId" (env.json_string b.plan_id)
        ∷ json_field env.json_string "reasoningEndpointId" (env.json_string b.reasoning_endpoint_id)
        ∷ json_field env.json_string "reasoningTier" (env.json_string b.reasoning_tier)
        ∷ [])))
