-- ===== src/Pending/Consent.antt =====
-- What each operation on pending prompts may write.
use cli_bridge.Common.{
  ℕ, refl, sym, inl, inr, String, some, [], ◌∷◌, arith, ◌==◌, nat_eq, string_eq, Bool-cases,
  Option-cases,
}
use cli_bridge.Pending.Model.{
  previewed, confirmed, sent, cancelled, pending_prompt_status_eq, Delivery,
}
use cli_bridge.Pending.Store.{Store, lookup, preview, confirm, hand_off, cancel, is_closed}
use cli_bridge.Pending.Sending.{Flight, finish_send}
use cli_bridge.Pending.Objects.{lookup-object, Led, lookup-Led, Change, put-Change, audit-Change}

pub preview-Change : (id : String) (now : ℕ) (s : Store) → Change [] s (preview id now s).1
unfolding preview
preview-Change id now s = elim (Option-cases (lookup id s)) [
  | inl e ↦ rw (e, preview) (inl refl)
  | inr ((at, p), e) ↦
      rw (e, preview)
        (put-Change [] at p (record p { status = previewed; updated_at = now }) s
          (lookup-object id at p s e).1 refl refl (λ c. absurd (ground arith)))
]

pub confirm-Change :
    (id : String) (now : ℕ) (s : Store) → Led s → Change (id ∷ []) s (confirm id now s).1
unfolding confirm
confirm-Change id now s l = elim (Option-cases (lookup id s)) [
  | inl e ↦ rw (e, confirm) (inl refl)
  | inr ((at, p), e) ↦ elim (Bool-cases (is_closed p.status)) [
    | inl b ↦ rw (e, b, confirm) (inl refl)
    | inr b ↦
        rw (e, b, confirm)
          (audit-Change (id ∷ []) at p
            (record p { status = confirmed; confirmed_at = some now; updated_at = now }) _ s
            (lookup-object id at p s e).1 refl refl
            (λ c. inr (inl (sym (lookup-Led id at p s l e)))))
  ]
]

pub cancel-Change : (id : String) (now : ℕ) (s : Store) → Change [] s (cancel id now s).1
unfolding cancel
cancel-Change id now s = elim (Option-cases (lookup id s)) [
  | inl e ↦ rw (e, cancel) (inl refl)
  | inr ((at, p), e) ↦ elim (Bool-cases (p.status == sent)) [
    | inl b ↦ rw (e, b, cancel) (inl refl)
    | inr b ↦
        rw (e, b, cancel)
          (audit-Change [] at p
            (record p { status = cancelled; cancelled_at = some now; updated_at = now }) _ s
            (lookup-object id at p s e).1 refl refl (λ c. absurd (ground arith)))
  ]
]

pub hand_off-Change :
    (id reason : String) (now : ℕ) (s : Store) → Change [] s (hand_off id reason now s).1
unfolding hand_off
hand_off-Change id reason now s = elim (Option-cases (lookup id s)) [
  | inl e ↦ rw (e, hand_off) (inl refl)
  | inr ((at, p), e) ↦ elim (Bool-cases (p.status == confirmed)) [
    | inr b ↦ rw (e, b, hand_off) (inl refl)
    | inl b ↦
        rw (e, b, hand_off)
          (audit-Change [] at p _ _ s (lookup-object id at p s e).1 refl refl
            (λ c. inl (ground arith)))
  ]
]

pub finish_send-Change :
    (adapter : String) (delivery : Delivery) (f : Flight) (s : Store)
    → Change [] s (finish_send adapter delivery f s).1
unfolding finish_send
finish_send-Change adapter delivery f s = elim (Option-cases (s.objects f.held)) [
  | inl e ↦ rw (e, finish_send) (inl refl)
  | inr (p, e) ↦ elim (Bool-cases delivery.ok) [
    | inl b ↦
        rw (e, b, finish_send)
          (audit-Change [] f.held p
            (record p { status = sent; sent_at = some f.now; updated_at = f.now }) _ s e refl refl
            (λ c. absurd (ground arith)))
    | inr b ↦
        rw (e, b, finish_send)
          (audit-Change [] f.held p _ _ s e refl refl (λ c. absurd (ground arith)))
  ]
]
