-- ===== src/Execution/Capabilities.antt =====
-- What the providers can do: apps/local-server/src/storage/provider-capability.ts.
use cli_bridge.Common.{
  ℕ, Bool, true, false, not, ◌&&◌, String, Option, none, some, List, [], ◌∷◌, ◌++◌, if◌then◌else◌,
  ltb, ◌==◌, nat_eq, string_eq, includes, Map, get, truthy,
}
use Prim.Native.String.{◌++◌ as append}

-- The evidence on the parallelism of the products and the descriptions, which no code reads, are left out.
pub record Capability : Type 0 where
  pub provider : String
  pub provider_id : String
  pub endpoint_id : String
  pub kind : String
  pub label : String
  pub can_execute : Bool
  pub can_review : Bool
  pub can_propose_patch : Bool
  pub can_verify : Bool
  pub can_use_model_api : Bool
  pub bridge_governed_parallel_slots : Bool
  pub max_concurrent_bridge_slots : ℕ
  pub isolation_modes : List String
  pub supported_isolations : List String
  pub supported_modes : List String

abbrev provider_of : String → String → String → String → Bool → Capability
provider_of provider endpoint_id kind label can_propose_patch = record {
  provider = provider;
  provider_id = provider;
  endpoint_id = endpoint_id;
  kind = kind;
  label = label;
  can_execute = true;
  can_review = true;
  can_propose_patch = can_propose_patch;
  can_verify = true;
  can_use_model_api = false;
  bridge_governed_parallel_slots = false;
  max_concurrent_bridge_slots = 1;
  isolation_modes = "patch-only" ∷ [];
  supported_isolations = "patch-only" ∷ [];
  supported_modes = "sequential" ∷ [];
}

abbrev pub known_provider_capabilities : Map Capability
known_provider_capabilities =
    ("claude", provider_of "claude" "claude-code-command" "claude" "Claude Code" true)
    ∷ ("codex", provider_of "codex" "codex-command" "codex" "Codex" true)
    ∷ ("codex-medium", provider_of "codex-medium" "codex-medium" "codex" "Codex Medium" true)
    ∷ ("workbuddy", provider_of "workbuddy" "workbuddy" "workbuddy" "WorkBuddy" false)
    ∷ []

abbrev error_if : Bool → String → List String
error_if wrong error = if wrong then error ∷ [] else []

abbrev about : String → String → String
about provider text = append "Provider " (append provider text)

-- A list of what is supported that is not empty and does not have what is asked for.
abbrev unsupported : String → List String → Bool
unsupported asked [] = false
unsupported asked (x ∷ xs) = not (includes asked (x ∷ xs))

-- The errors about one provider; `show` prints a number.
unfoldable pub capability_errors :
    (ℕ → String) → Capability → String → String → String → ℕ → Option String → List String
capability_errors show cap provider mode isolation slots endpoint_id =
    error_if (not cap.can_execute) (about provider " cannot execute")
    ++ (elim (truthy endpoint_id) [
      | none ↦ []
      | some id ↦
          error_if (not (id == cap.endpoint_id))
            (about provider (append " must use endpointId " cap.endpoint_id))
    ])
    ++ error_if cap.bridge_governed_parallel_slots
        (about provider " must declare bridgeGovernedParallelSlots=false in v2.4b")
    ++ error_if (not (cap.max_concurrent_bridge_slots == 1) && cap.can_execute)
        (about provider " must declare maxConcurrentBridgeSlots=1 in v2.4b")
    ++ error_if (not (includes "patch-only" cap.isolation_modes) && cap.can_execute)
        (about provider " must support patch-only isolation")
    ++ error_if (unsupported mode cap.supported_modes)
        (append "Provider does not support mode: " mode)
    ++ error_if (unsupported isolation cap.supported_isolations)
        (append "Provider does not support isolation: " isolation)
    ++ error_if (ltb cap.max_concurrent_bridge_slots slots) (
        append "Requested " (
          append (show slots)
            (append " slots, provider supports " (show cap.max_concurrent_bridge_slots))))

-- `validateProviderCapability`: its list of errors.
unfoldable pub validate_provider_capability :
    (ℕ → String) → String → String → String → ℕ → Option String → List String
unfolding capability_errors
validate_provider_capability show provider mode isolation slots endpoint_id =
    elim (get provider known_provider_capabilities) [
      | none ↦ append "Unknown provider: " provider ∷ []
      | some cap ↦ capability_errors show cap provider mode isolation slots endpoint_id
    ]
