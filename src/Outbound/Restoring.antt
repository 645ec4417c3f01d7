-- ===== src/Outbound/Restoring.antt =====
-- Export and hydration of outbound prompts: storage/outbound-prompt-store.ts.
use cli_bridge.Common.{
  ℕ, suc, ◌≡◌, refl, ap, ◌∙◌, String, List, [], ◌∷◌, get, set, values, IsKeyed, length, set_all,
  get-set_all_kept, string_eq,
}
use cli_bridge.Outbound.Prompts.{OutboundPrompt}
use cli_bridge.Outbound.Store.{Store}
use cli_bridge.Outbound.Reports.{list_prompts}
use cli_bridge.Outbound.Calls.{prompt_id}

unfoldable pub export_prompts : Store → List OutboundPrompt
unfolding list_prompts
export_prompts s = list_prompts s

-- What has not the shape of an outbound prompt is passed over before it comes here.
unfoldable pub hydrate_prompts : List OutboundPrompt → Store → ℕ × Store
hydrate_prompts [] s = (0, s)
hydrate_prompts (p ∷ ps) s =
    let (n, t) = hydrate_prompts ps (record s { prompts = set p.id p s.prompts }) in (suc n, t)

hydrate_prompts-set_all :
    (ps : List OutboundPrompt) (s : Store)
    → hydrate_prompts ps s ≡ (length ps, record s { prompts = set_all prompt_id ps s.prompts })
unfolding hydrate_prompts set_all
hydrate_prompts-set_all [] s = refl
hydrate_prompts-set_all (p ∷ ps) s =
    rw (hydrate_prompts-set_all ps (record s { prompts = set p.id p s.prompts })) refl

-- Prompts that are exported and hydrated into a store that has none are all taken and found as they were,
-- where each stands under its own identifier; the packets and the audit log stay as they are.
pub export_prompts-hydrate_prompts :
    (s t : Store) (k : String)
    → IsKeyed prompt_id s.prompts
    → t.prompts ≡ []
    → let restored = hydrate_prompts (export_prompts s) t in
      (restored.0 ≡ length (values s.prompts))
      × (restored.1.services ≡ t.services)
      × (get k restored.1.prompts ≡ get k s.prompts)
unfolding export_prompts list_prompts
export_prompts-hydrate_prompts s t k keyed e = rw (hydrate_prompts-set_all (values s.prompts) t) (
  refl,
  refl,
  ap (λ m. get k (set_all prompt_id (values s.prompts) m)) e
      ∙ get-set_all_kept prompt_id k s.prompts keyed,
)
