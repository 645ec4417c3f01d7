-- ===== src/Outbound/Lifecycle.antt =====
-- Every call of the store follows the lifecycle, whichever prompt one looks at.
use cli_bridge.Common.{
  ℕ, ◌≡◌, refl, sym, ap, ◌∙◌, ◌⊎◌, inl, inr, true, ◌&&◌, String, Option, none, some, [], arith,
  eq_iff, ltb, ◌==◌, nat_eq, string_eq, Bool-cases, Option-cases, Map, get, set, values, map_values,
  get-set, get-map_values, set-IsKeyed, map_values-IsKeyed, In-values, In-filter, head?-sort_by-In,
}
use cli_bridge.Outbound.Prompts.{OutboundStatus, claimed, status_eq, OutboundPrompt}
use mathlib.Core.Option
use mathlib.Core.List.{append-nil}
use mathlib.Core.Path.{subst}
use cli_bridge.Outbound.Store.{
  Store, recover_prompt, recover_stale_claims, is_terminal, is_pending, lease_ended,
}
use cli_bridge.Outbound.Delivery.{claim_next, claim, next_queued, is_queued}
use cli_bridge.Outbound.Calls.{Progress, may_move, HasKeys, prompt_id, Advances}
use cli_bridge.Outbound.Moves.{Acts, claim_prompt-Progress}

pub Advances-refl : (o : Option OutboundPrompt) → Advances o o
Advances-refl none = tt
Advances-refl (some p) = inl refl

Advances-some :
    {p q : OutboundPrompt} {o : Option OutboundPrompt}
    → o ≡ some p
    → Progress p q
    → Advances o (some q)
Advances-some e g = rw e (inr g)

pub Advances-terminal :
    (p : OutboundPrompt) (o : Option OutboundPrompt)
    → is_terminal p.status ≡ true
    → Advances (some p) o
    → o ≡ some p
Advances-terminal p none t a = absurd a
Advances-terminal p (some q) t (inl e) = ap some e
Advances-terminal p (some q) t (inr g) = absurd (terminal_stays p.status q.status t g.moves)
  where
    terminal_stays : (a b : OutboundStatus) → is_terminal a ≡ true → may_move a b ≡ true → ⊥
    terminal_stays a b h k = ground arith

pub Progress-id : {p q : OutboundPrompt} → Progress p q → q.id ≡ p.id
Progress-id g = ap (λ c. c.id) g.same

-- Writing back a prompt that made progress.
set-Advances :
    (k : String) (p q : OutboundPrompt) (m : Map OutboundPrompt)
    → get p.id m ≡ some p
    → Progress p q
    → Advances (get k m) (get k (set q.id q m))
set-Advances k p q m e g = elim (Bool-cases (q.id == k)) [
  | inl same ↦
      rw (get-set q.id k q m, same)
        (Advances-some (ap (λ j. get j m) (sym ((eq_iff q.id k).0 same) ∙ Progress-id g) ∙ e) g)
  | inr other ↦ rw (get-set q.id k q m, other) (Advances-refl (get k m))
]

pub Acts-Advances :
    (s t : Store) (k : String) → Acts s t → Advances (get k s.prompts) (get k t.prompts)
Acts-Advances s t k (inl e) = rw e (Advances-refl (get k s.prompts))
Acts-Advances s t k (inr (p, q, e, g, w)) = rw w (set-Advances k p q s.prompts e g)

pub Acts-HasKeys : (s t : Store) → HasKeys s → Acts s t → HasKeys t
Acts-HasKeys s t h (inl e) = rw e h
Acts-HasKeys s t h (inr (p, q, e, g, w)) = rw w (set-IsKeyed prompt_id q s.prompts h)

recover_prompt-moves :
    (now : ℕ) (p : OutboundPrompt) → (recover_prompt now p ≡ p) ⊎ Progress p (recover_prompt now p)
unfolding recover_prompt
recover_prompt-moves now p = elim (Bool-cases (is_pending p.status && ltb p.expires_at now)) [
  | inl x ↦
      rw (x, recover_prompt) (inr (record { moves = ground arith; same = refl; adds = (_, refl) }))
  | inr x ↦ elim (Bool-cases (p.status == claimed && lease_ended now p.claimed_at)) [
    | inl y ↦
        rw (x, y, recover_prompt)
          (inr (record { moves = ground arith; same = refl; adds = ([], sym (append-nil _)) }))
    | inr y ↦ rw (x, y, recover_prompt) (inl refl)
  ]
]

-- Recovery makes no prompt queued.
pub recover_prompt-queued :
    (now : ℕ) (p : OutboundPrompt)
    → is_queued (recover_prompt now p) ≡ true
    → recover_prompt now p ≡ p
unfolding recover_prompt
recover_prompt-queued now p h = ground arith

recover-Advances :
    (now : ℕ) (o : Option OutboundPrompt) → Advances o (Option.map (recover_prompt now) o)
recover-Advances now none = tt
recover-Advances now (some p) = recover_prompt-moves now p

recover_prompt-id : (now : ℕ) (p : OutboundPrompt) → (recover_prompt now p).id ≡ p.id
recover_prompt-id now p = elim (recover_prompt-moves now p) [
  | inl e ↦ ap prompt_id e
  | inr g ↦ Progress-id g
]

pub recover-HasKeys : (now : ℕ) (s : Store) → HasKeys s → HasKeys (recover_stale_claims now s)
unfolding recover_stale_claims
recover-HasKeys now s h =
    map_values-IsKeyed prompt_id (recover_prompt now) s.prompts (recover_prompt-id now) h

-- The prompt at the head of the queue is in the store, and is queued.
pub next_queued-get :
    (s : Store) (p : OutboundPrompt)
    → HasKeys s
    → next_queued s ≡ some p
    → (get p.id s.prompts ≡ some p) × (is_queued p ≡ true)
unfolding next_queued
next_queued-get s p h e =
    let found = In-filter is_queued p (values s.prompts) (head?-sort_by-In _ p _ e) in
    (In-values prompt_id p s.prompts h found.0, found.1)

pub claim-Acts :
    (now : ℕ) (s : Store) (p : OutboundPrompt)
    → get p.id s.prompts ≡ some p
    → is_queued p ≡ true
    → Acts s (claim now s p).1
unfolding claim
claim-Acts now s p e h = inr (p, _, e, claim_prompt-Progress _ now p h, refl)

-- A prompt that recovery let through as queued was queued before.
claimed-Advances :
    (now : ℕ) (o : Option OutboundPrompt) (p q : OutboundPrompt)
    → Option.map (recover_prompt now) o ≡ some p
    → is_queued p ≡ true
    → Progress p q
    → Advances o (some q)
claimed-Advances now none p q e h g = absurd (cc)
claimed-Advances now (some p₀) p q e h g =
    let e' : recover_prompt now p₀ ≡ p = ground arith in
    let same : p ≡ p₀ = sym e' ∙ recover_prompt-queued now p₀ (rw e' h) in
    inr (subst (λ r. Progress r q) same g)

set-claimed-Advances :
    (now : ℕ) (m : Map OutboundPrompt) (p q : OutboundPrompt) (k : String)
    → get p.id (map_values (recover_prompt now) m) ≡ some p
    → is_queued p ≡ true
    → Progress p q
    → Advances (get k m) (get k (set q.id q (map_values (recover_prompt now) m)))
set-claimed-Advances now m p q k e h g = elim (Bool-cases (q.id == k)) [
  | inl same ↦
      let here : get k (map_values (recover_prompt now) m) ≡ some p =
        ap (λ j. get j (map_values (recover_prompt now) m))
          (sym ((eq_iff q.id k).0 same) ∙ Progress-id g)
        ∙ e in
      rw (get-set q.id k q, same)
        (claimed-Advances now (get k m) p q (sym (get-map_values _ k m) ∙ here) h g)
  | inr other ↦
      rw (get-set q.id k q, other, get-map_values (recover_prompt now) k m)
        (recover-Advances now (get k m))
]

-- What `claim_next` does: it recovers, and then claims the head of the queue if there is one.
pub claim_next_cases {ℓ} :
    (P : Option OutboundPrompt × Store → Type ℓ) (now : ℕ) (s : Store)
    → P (none, recover_stale_claims now s)
    → ((p : OutboundPrompt)
        → next_queued (recover_stale_claims now s) ≡ some p
        → P (
          some (claim now (recover_stale_claims now s) p).0,
          (claim now (recover_stale_claims now s) p).1,
        ))
    → P (claim_next now s)
unfolding claim_next
claim_next_cases P now s empty full =
    elim (Option-cases (next_queued (recover_stale_claims now s))) [
      | inl e ↦ rw (e, claim_next) empty
      | inr (p, e) ↦ rw (e, claim_next) (full p e)
    ]

pub claim_next-Advances :
    (now : ℕ) (s : Store) (k : String)
    → HasKeys s
    → Advances (get k s.prompts) (get k (claim_next now s).1.prompts)
unfolding recover_stale_claims claim
claim_next-Advances now s k h =
    claim_next_cases (λ r. Advances (get k s.prompts) (get k r.1.prompts)) now s
      (rw (get-map_values (recover_prompt now) k s.prompts)
        (recover-Advances now (get k s.prompts)))
      λ p e.
        let found = next_queued-get (recover_stale_claims now s) p (recover-HasKeys now s h) e in
        set-claimed-Advances now s.prompts p _ k found.0 found.1
          (claim_prompt-Progress _ now p found.1)

pub claim_next-HasKeys : (now : ℕ) (s : Store) → HasKeys s → HasKeys (claim_next now s).1
claim_next-HasKeys now s h =
    claim_next_cases (λ (r : Option OutboundPrompt × Store). HasKeys r.1) now s
      (recover-HasKeys now s h)
      λ p e.
        let kept = recover-HasKeys now s h in
        let found = next_queued-get (recover_stale_claims now s) p kept e in
        let s' = recover_stale_claims now s in
        Acts-HasKeys s' (claim now s' p).1 kept (claim-Acts now s' p found.0 found.1)
