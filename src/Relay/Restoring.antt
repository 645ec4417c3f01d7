-- ===== src/Relay/Restoring.antt =====
-- Export and hydration of the relay loops: storage/web-relay-loop-store.ts.
use cli_bridge.Common.{
  ℕ, suc, ◌≡◌, refl, ap, ◌∙◌, String, List, [], ◌∷◌, All, get, set, values, IsKeyed, length,
  set_all, get-set_all_kept, string_eq,
}
use cli_bridge.Relay.Model.{WebRelayLoop, validate_web_relay_loop}
use cli_bridge.Relay.Store.{Store, list_loops}
use cli_bridge.Relay.Writes.{loop_id}

unfoldable pub export_loops : Store → List WebRelayLoop
unfolding list_loops
export_loops s = list_loops s

-- What is not a record of a relay loop is refused before it comes here.
unfoldable pub hydrate_loops : List WebRelayLoop → Store → ℕ × Store
hydrate_loops [] s = (0, s)
hydrate_loops (loop ∷ loops) s = elim (validate_web_relay_loop loop) [
  | [] ↦
      let (n, t) = hydrate_loops loops (record s { loops = set loop.id loop s.loops }) in (suc n, t)
  | _ ∷ _ ↦ hydrate_loops loops s
]

abbrev pub IsValid : WebRelayLoop → Type 0
IsValid loop = validate_web_relay_loop loop ≡ []

hydrate_loops_valid :
    (loops : List WebRelayLoop) (s : Store)
    → All IsValid loops
    → hydrate_loops loops s ≡ (length loops, record s { loops = set_all loop_id loops s.loops })
unfolding hydrate_loops set_all
hydrate_loops_valid [] s v = refl
hydrate_loops_valid (loop ∷ loops) s v =
    rw
      (
        v.0,
        hydrate_loops_valid loops (record s { loops = set loop.id loop s.loops }) v.1,
        hydrate_loops,
      )
      refl

-- Loops that are exported and hydrated into a store that has none are all taken and found as they were,
-- where each stands under its own identifier and is valid; the outbound prompts stay as they are.
pub export_loops-hydrate_loops :
    (s t : Store) (k : String)
    → IsKeyed loop_id s.loops
    → All IsValid (values s.loops)
    → t.loops ≡ []
    → let restored = hydrate_loops (export_loops s) t in
      (restored.0 ≡ length (values s.loops))
      × (restored.1.outbound ≡ t.outbound)
      × (get k restored.1.loops ≡ get k s.loops)
unfolding export_loops list_loops
export_loops-hydrate_loops s t k keyed valid e = rw (hydrate_loops_valid (values s.loops) t valid) (
  refl,
  refl,
  ap (λ m. get k (set_all loop_id (values s.loops) m)) e ∙ get-set_all_kept loop_id k s.loops keyed,
)
