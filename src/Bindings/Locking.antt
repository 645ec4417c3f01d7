-- ===== src/Bindings/Locking.antt =====
-- Locking a binding, deriving one from the binding of a parent plan, and the queries.
use cli_bridge.Common.{
  Attempt, made, thrown, ℕ, Bool, true, false, String, Option, none, some, List, [], ◌∷◌,
  if◌then◌else◌, ◌==◌, nat_eq, string_eq, is_some, get, values,
}
use cli_bridge.Bindings.Model.{RunEndpointBinding, Platform}
use cli_bridge.Bindings.Hash.{hash_binding_fields}
use cli_bridge.Bindings.Store.{
  Store, CreateInput, UpdateInput, asserted, build_binding, keep, merged,
}

-- `assertRunEndpointBinding` and the test of the digest, on the way into the store.
unfoldable pub verified : Platform → RunEndpointBinding → Attempt RunEndpointBinding
unfolding asserted
verified env b = elim (asserted env b) [
  | thrown es ↦ thrown es
  | made _ ↦
      if b.binding_hash == hash_binding_fields env b
      then made b
      else thrown ("binding hash mismatch" ∷ [])
]

abbrev pub locked : ℕ → RunEndpointBinding → RunEndpointBinding
locked now b = record b { locked_at = some now; updated_at = now }

-- What `lockBinding` returns for a plan that has a binding, and the new state.
unfoldable pub lock_binding : String → ℕ → Store → Option (Attempt RunEndpointBinding) × Store
unfolding verified keep
lock_binding plan_id now s = elim (get plan_id s.bindings) [
  | none ↦ (none, s)
  | some b ↦
      if is_some b.locked_at
      then (some (made b), s)
      else (let (result, t) = keep plan_id s (verified s.platform (locked now b)) in
          (some result, t))
]

pub record DeriveInput : Type 0 where
  pub goal_id : String
  pub plan_id : String
  pub parent_plan_id : String
  pub changes : UpdateInput

-- The parent's fields, but for those that the input gives.
unfoldable pub inherited : RunEndpointBinding → DeriveInput → CreateInput
unfolding merged
inherited parent input = record (merged parent input.changes) {
  goal_id = input.goal_id;
  plan_id = input.plan_id;
  parent_plan_id = some input.parent_plan_id;
}

unfoldable pub preview_derived_binding : DeriveInput → ℕ → Store → Attempt RunEndpointBinding
unfolding inherited build_binding
preview_derived_binding input now s = elim (get input.parent_plan_id s.bindings) [
  | none ↦ thrown ("parent binding not found" ∷ [])
  | some parent ↦ build_binding (inherited parent input) now s
]

abbrev pub is_locked : String → Store → Bool
is_locked plan_id s = elim (get plan_id s.bindings) [ none ↦ false | some b ↦ is_some b.locked_at ]

unfoldable pub commit_binding : RunEndpointBinding → Store → Attempt RunEndpointBinding × Store
unfolding verified keep
commit_binding b s = elim (verified s.platform b) [
  | thrown es ↦ (thrown es, s)
  | made _ ↦
      if is_locked b.plan_id s
      then (thrown ("binding is locked" ∷ []), s)
      else keep b.plan_id s (made b)
]

unfoldable pub derive_binding : DeriveInput → ℕ → Store → Attempt RunEndpointBinding × Store
unfolding preview_derived_binding commit_binding
derive_binding input now s = elim (preview_derived_binding input now s) [
  | thrown es ↦ (thrown es, s)
  | made b ↦ commit_binding b s
]

unfoldable pub get_binding : String → Store → Option RunEndpointBinding
get_binding plan_id s = get plan_id s.bindings

-- `listBindings` and `exportBindings`
unfoldable pub export_bindings : Store → List RunEndpointBinding
export_bindings s = values s.bindings

-- `hydrateBinding`, which answers whether it took the binding, and overwrites even a locked one.
unfoldable pub hydrate_binding : RunEndpointBinding → Store → Bool × Store
unfolding verified keep
hydrate_binding b s = elim (verified s.platform b) [
  | thrown es ↦ (false, s)
  | made _ ↦ (true, (keep b.plan_id s (made b)).1)
]
