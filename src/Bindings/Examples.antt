-- ===== src/Bindings/Examples.antt =====
-- The theorems about bindings at one binding of plan "p" and a plan that is derived from it.
use cli_bridge.Common.{
  made, thrown, ℕ, ◌≡◌, refl, ◌⊎◌, true, String, none, some, List, [], ◌∷◌, arith, nat_eq,
  string_eq, get, set, is_blank,
}
use cli_bridge.Bindings.Model.{RunEndpointBinding, Platform, validate_run_endpoint_binding}
use cli_bridge.Bindings.Hash.{hash_binding_fields}
use cli_bridge.Bindings.Store.{
  Store, CreateInput, UpdateInput, without_hash, hashed, create_binding,
}
use cli_bridge.Bindings.Locking.{locked, lock_binding, DeriveInput, inherited, derive_binding}
use cli_bridge.Bindings.Calls.{Call, creates, updates, locks, derives, run, HasKeys}
use cli_bridge.Endpoints.Examples.{codex_endpoint, one_endpoint}
use cli_bridge.Bindings.Histories.{AllBuilt, run-AllBuilt, run_locked}
use cli_bridge.Bindings.Building.{Fills}
use cli_bridge.Bindings.Deciding.{
  Acceptable, create_binding-Acceptable, Derives, derive_binding-Derives,
}

abbrev platform : Platform
platform = record {
  sha256_hex = λ s. s;
  json_string = λ s. s;
  json_number = λ n. "n";
  is_date = λ s. true;
  project_exists = λ s. true;
}

abbrev empty_store : Store
empty_store = record { platform = platform; registry = one_endpoint; bindings = [] }

abbrev input : CreateInput
input = record {
  goal_id = "g";
  plan_id = "p";
  parent_plan_id = none;
  reasoning_endpoint_id = "codex";
  execution_endpoint_id = "codex";
  reasoning_tier = "high";
  execution_tier = "low";
  execution_permission_profile = "patch-proposal";
  execution_working_directory_ref = "d";
  max_steps = 5;
  max_reasoning_rounds = 3;
  deadline_at = "2030-01-01";
}

abbrev bound : RunEndpointBinding
bound = hashed platform (without_hash input codex_endpoint codex_endpoint 10)

abbrev locked_store : Store
locked_store = record empty_store { bindings = ("p", locked 20 bound) ∷ [] }

abbrev no_change : UpdateInput
no_change = record {
  reasoning_endpoint_id = none;
  execution_endpoint_id = none;
  reasoning_tier = none;
  execution_tier = none;
  execution_permission_profile = none;
  execution_working_directory_ref = none;
  max_steps = some 7;
  max_reasoning_rounds = none;
  deadline_at = none;
}

abbrev derivation : DeriveInput
derivation = record { goal_id = "g"; plan_id = "q"; parent_plan_id = "p"; changes = no_change }

abbrev calls : List (ℕ × Call)
calls = (10, creates input) ∷ (20, locks "p") ∷ (30, derives derivation) ∷ []

reaches_lock :
    (run empty_store ((10, creates input) ∷ (20, locks "p") ∷ [])).bindings ≡ locked_store.bindings
unfolding run lock_binding get create_binding is_blank validate_run_endpoint_binding
    hash_binding_fields set
reaches_lock = refl

run-AllBuilt_example : HasKeys (run empty_store calls) × AllBuilt (run empty_store calls)
run-AllBuilt_example = run-AllBuilt empty_store calls tt tt

locked-HasKeys : HasKeys locked_store
unfolding hashed without_hash get
locked-HasKeys = (refl, refl, tt)

locked-AllBuilt : AllBuilt locked_store
unfolding hash_binding_fields hashed validate_run_endpoint_binding without_hash
locked-AllBuilt =
    ((refl, refl, omega arith, omega arith, omega arith, omega arith, refl, refl, refl, refl), tt)

run_locked_example :
    get "p" (run locked_store ((40, updates "p" no_change) ∷ [])).bindings ≡ some (locked 20 bound)
unfolding get
run_locked_example =
    run_locked locked_store ((40, updates "p" no_change) ∷ []) "p" (locked 20 bound) locked-HasKeys
      locked-AllBuilt refl refl

create_binding-Acceptable_example :
    ((b : RunEndpointBinding) × Acceptable input empty_store
      × Fills input 10 b
      × (create_binding input 10 empty_store
          ≡ (made b, record empty_store { bindings = set "p" b [] })))
    ⊎ ((errors : List String) × (¬ Acceptable input empty_store)
        × (create_binding input 10 empty_store ≡ (thrown errors, empty_store)))
unfolding get
create_binding-Acceptable_example = create_binding-Acceptable input 10 empty_store refl

abbrev derived : RunEndpointBinding
derived = hashed platform (
    without_hash (inherited (locked 20 bound) derivation) (record codex_endpoint { status = none })
      codex_endpoint 30)

abbrev derived_store : Store
derived_store = record locked_store { bindings = ("p", locked 20 bound) ∷ ("q", derived) ∷ [] }

derives_it : derive_binding derivation 30 locked_store ≡ (made derived, derived_store)
unfolding derive_binding get is_blank validate_run_endpoint_binding hash_binding_fields set
derives_it = refl

derive_binding-Derives_example : Derives derivation 30 locked_store derived derived_store
derive_binding-Derives_example =
    derive_binding-Derives derivation 30 locked_store derived_store derived derives_it
