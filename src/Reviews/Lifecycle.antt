-- ===== src/Reviews/Lifecycle.antt =====
-- The reviews of storage/pending-review-store.ts over histories.
use mathlib.Core.Path.{subst}
use cli_bridge.Common.{
  ℕ, ◌≡◌, refl, sym, ap, ◌∙◌, ◌⊎◌, inl, inr, true, String, some, List, [], ◌∷◌, arith, eq_iff, ◌==◌,
  nat_eq, string_eq, Bool-cases, unwrap, All, get, values, All-values-set, get-All, get-set,
  set-IsKeyed,
}
use cli_bridge.Reviews.Model.{agent_review_status_eq, AgentReviewRequest}
use cli_bridge.Reviews.Store.{Store}
use cli_bridge.Reviews.Calls.{Call, step, run, review_id, HasKeys, IsFresh, IsFreshAll, may_move}
use cli_bridge.Reviews.Touching.{is_stamped, Keeps, Touches, step-Touches}

-- A review that is in the store, after a call: left alone, or moved along one edge.
abbrev pub Follows : AgentReviewRequest → AgentReviewRequest → Type 0
Follows r q = (q ≡ r) ⊎ (Keeps r q × (may_move r.status q.status ≡ true))

Touches-Follows :
    (s t : Store) (k : String) (r : AgentReviewRequest)
    → Touches s t
    → get k s.reviews ≡ some r
    → (q : AgentReviewRequest) × (get k t.reviews ≡ some q) × Follows r q
Touches-Follows s t k r (inl e) there = (r, rw e there, inl refl)
Touches-Follows s t k r (inr (inl (q, fresh, d, e))) there = (
  r,
  rw (e, get-set q.id k q s.reviews) (ground (arith, eq_iff q.id k, ap (λ j. get j s.reviews))),
  inl refl,
)
Touches-Follows s t k r (inr (inr (p, q, here, m, e))) there = elim (Bool-cases (q.id == k)) [
  | inr other ↦ (r, rw (e, get-set q.id k q s.reviews, other) there, inl refl)
  | inl same ↦
      let at_k : p.id ≡ k = sym m.0.0 ∙ (eq_iff q.id k).0 same in
      let it : p ≡ r = unwrap (sym here ∙ ap (λ j. get j s.reviews) at_k ∙ there) in
      (
        q,
        rw (e, get-set q.id k q s.reviews, same) refl,
        subst (λ x. Follows x q) it (inr (m.0, m.1)),
      )
]

Touches-HasKeys : (s t : Store) → HasKeys s → Touches s t → HasKeys t
Touches-HasKeys s t h (inl e) = rw e h
Touches-HasKeys s t h (inr (inl (q, fresh, d, e))) = rw e (set-IsKeyed review_id q s.reviews h)
Touches-HasKeys s t h (inr (inr (p, q, here, m, e))) = rw e (set-IsKeyed review_id q s.reviews h)

pub step-HasKeys : (s : Store) (c : ℕ × Call) → HasKeys s → IsFresh s c.1 → HasKeys (step s c)
step-HasKeys s c h fresh = Touches-HasKeys s (step s c) h (step-Touches s c h fresh)

-- Whatever the call, a review that is in the store stays there: it is left alone, or it moves along one
-- edge of the lifecycle and keeps its identifier, session, endpoints, packet, project and prompt. The
-- store keeps each review under its own identifier, and a draft takes an identifier that is not in use.
pub step-Follows :
    (s : Store) (c : ℕ × Call) (k : String) (r : AgentReviewRequest)
    → HasKeys s
    → IsFresh s c.1
    → get k s.reviews ≡ some r
    → (q : AgentReviewRequest) × (get k (step s c).reviews ≡ some q) × Follows r q
step-Follows s c k r h fresh there =
    Touches-Follows s (step s c) k r (step-Touches s c h fresh) there

abbrev Stamped : AgentReviewRequest → Type 0
Stamped r = is_stamped r ≡ true

abbrev pub AllStamped : Store → Type 0
AllStamped s = All (λ (r : AgentReviewRequest). is_stamped r ≡ true) (values s.reviews)

Touches-AllStamped : (s t : Store) → AllStamped s → Touches s t → AllStamped t
unfolding is_stamped
Touches-AllStamped s t h (inl e) = rw e h
Touches-AllStamped s t h (inr (inl (q, fresh, d, e))) =
    rw e (All-values-set Stamped q.id q s.reviews h (ground arith))
Touches-AllStamped s t h (inr (inr (p, q, here, m, e))) =
    rw e (All-values-set Stamped q.id q s.reviews h (m.2 (get-All Stamped p.id p s.reviews h here)))

-- In every history whose drafts take identifiers that are not in use, a review that is confirmed, sent
-- or returned carries the time of its confirmation, and one that is sent or returned the time it was
-- sent, if this is so at the start.
pub run-AllStamped :
    (s : Store) (cs : List (ℕ × Call))
    → HasKeys s
    → IsFreshAll s cs
    → AllStamped s
    → AllStamped (run s cs)
unfolding run
run-AllStamped s [] h fresh st = st
run-AllStamped s (c ∷ cs) h fresh st =
    run-AllStamped (step s c) cs (step-HasKeys s c h fresh.0) fresh.1
      (Touches-AllStamped s (step s c) st (step-Touches s c h fresh.0))
