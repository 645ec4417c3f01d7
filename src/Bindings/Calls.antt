-- ===== src/Bindings/Calls.antt =====
-- Histories of the store of bindings, from its hydration on. `commitBinding` is called through
-- `deriveBinding`, as the routes call it with a binding that `previewDerivedBinding` made.
use cli_bridge.Common.{ℕ, String, List, [], ◌∷◌, nat_eq, string_eq, IsKeyed}
use cli_bridge.Bindings.Model.{RunEndpointBinding}
use cli_bridge.Bindings.Store.{Store, CreateInput, UpdateInput, update_binding, create_binding}
use cli_bridge.Bindings.Locking.{lock_binding, DeriveInput, derive_binding}

pub data Call : Type 0 where
  creates : CreateInput → Call
  updates : String → UpdateInput → Call
  locks : String → Call
  derives : DeriveInput → Call

unfoldable pub step : Store → ℕ × Call → Store
step s (now, creates input) = (create_binding input now s).1
step s (now, updates plan_id input) = (update_binding plan_id input now s).1
step s (now, locks plan_id) = (lock_binding plan_id now s).1
step s (now, derives input) = (derive_binding input now s).1

unfoldable pub run : Store → List (ℕ × Call) → Store
unfolding step
run s [] = s
run s (c ∷ cs) = run (step s c) cs

abbrev pub plan_id_of : RunEndpointBinding → String
plan_id_of b = b.plan_id

abbrev pub HasKeys : Store → Type 0
HasKeys s = IsKeyed plan_id_of s.bindings
