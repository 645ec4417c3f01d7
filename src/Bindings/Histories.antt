-- ===== src/Bindings/Histories.antt =====
-- What holds of the store of bindings over its histories.
use cli_bridge.Common.{
  Attempt, made, thrown, Attempt-cases, ℕ, ◌≡◌, refl, sym, ap, ◌∙◌, ◌⊎◌, inl, inr, true, false,
  String, some, List, [], ◌∷◌, arith, eq_iff, ◌==◌, nat_eq, string_eq, Bool-cases, Option-cases,
  is_some, All, get, set, values, All-values-set, get-All, get-set, get-IsKeyed, set-IsKeyed,
}
use cli_bridge.Bindings.Model.{RunEndpointBinding, Platform, validate_run_endpoint_binding}
use cli_bridge.Bindings.Hash.{hash_binding_fields}
use cli_bridge.Bindings.Store.{
  Store, CreateInput, UpdateInput, asserted, build_binding, keep, merged, update_binding, whole,
  create_binding,
}
use cli_bridge.Bindings.Locking.{
  verified, locked, lock_binding, DeriveInput, inherited, preview_derived_binding, is_locked,
  commit_binding, derive_binding,
}
use cli_bridge.Bindings.Calls.{
  Call, creates, updates, locks, derives, step, run, plan_id_of, HasKeys,
}
use cli_bridge.Common.{made_value, thrown-ne-made}
use cli_bridge.Bindings.Building.{IsBuilt, Fills, build_binding-IsBuilt}
use mathlib.Core.Path.{subst}

-- What a call does to the store: nothing, or one write for a plan whose binding is not locked.
abbrev pub Writes : Store → Store → Type 0
Writes s t =
    (t.platform ≡ s.platform)
    × ((t.bindings ≡ s.bindings)
        ⊎ ((b : RunEndpointBinding) × IsBuilt s.platform b
            × (is_locked b.plan_id s ≡ false)
            × (t.bindings ≡ set b.plan_id b s.bindings)))

keep-Writes :
    (plan_id : String) (s : Store) (r : Attempt RunEndpointBinding)
    → ((b : RunEndpointBinding)
        → r ≡ made b
        → IsBuilt s.platform b × (b.plan_id ≡ plan_id) × (is_locked plan_id s ≡ false))
    → Writes s (keep plan_id s r).1
unfolding keep
keep-Writes plan_id s (thrown es) h = (refl, inl refl)
keep-Writes plan_id s (made b) h =
    let (built, own, unlocked) = h b refl in (refl, inr (b, built, rw own unlocked, rw own refl))

unlocked :
    (k : String) (s : Store) (b : RunEndpointBinding)
    → get k s.bindings ≡ some b
    → is_some b.locked_at ≡ false
    → is_locked k s ≡ false
unlocked k s b e f = rw (e, is_locked) f

update_binding-Writes :
    (k : String) (input : UpdateInput) (now : ℕ) (s : Store)
    → HasKeys s
    → Writes s (update_binding k input now s).1
unfolding update_binding merged
update_binding-Writes k input now s h = elim (Option-cases (get k s.bindings)) [
  | inl e ↦ rw (e, update_binding) (refl, inl refl)
  | inr (b, e) ↦ elim (Bool-cases (is_some b.locked_at)) [
    | inl f ↦ rw (e, f, update_binding) (refl, inl refl)
    | inr f ↦
        rw (e, f, update_binding)
          (keep-Writes k s (build_binding (merged b input) now s) (λ c g.
            let (built, fills) = build_binding-IsBuilt (merged b input) now s c g in
            (built, fills.1 ∙ get-IsKeyed plan_id_of k b s.bindings h e, unlocked k s b e f)))
  ]
]

create_binding-Writes :
    (input : CreateInput) (now : ℕ) (s : Store)
    → HasKeys s
    → Writes s (create_binding input now s).1
unfolding create_binding
create_binding-Writes input now s h = elim (Option-cases (get input.plan_id s.bindings)) [
  | inr (b, e) ↦ rw (e, create_binding) (update_binding-Writes input.plan_id (whole input) now s h)
  | inl e ↦
      rw (e, create_binding)
        (keep-Writes input.plan_id s (build_binding input now s) (λ c g.
          let (built, fills) = build_binding-IsBuilt input now s c g in
          (built, fills.1, rw (e, is_locked) refl)))
]

pub verified_made : (env : Platform) (a b : RunEndpointBinding) → verified env a ≡ made b → a ≡ b
unfolding verified
verified_made env a b e = elim (Attempt-cases (asserted env a)) [
  | inl (es, f) ↦ absurd (thrown-ne-made es b (rw (f, verified) at e))
  | inr (c, f) ↦ elim (Bool-cases (a.binding_hash == hash_binding_fields env a)) [
    | inr g ↦ absurd (thrown-ne-made _ b (rw (f, g, verified) at e))
    | inl g ↦ made_value (rw (f, g, verified) at e)
  ]
]

locked-IsBuilt :
    (env : Platform) (now : ℕ) (b : RunEndpointBinding) → IsBuilt env b → IsBuilt env (locked now b)
unfolding hash_binding_fields validate_run_endpoint_binding
locked-IsBuilt env now b h = h

abbrev pub AllBuilt : Store → Type 0
AllBuilt s = All (IsBuilt s.platform) (values s.bindings)

lock_binding-Writes :
    (k : String) (now : ℕ) (s : Store) → HasKeys s → AllBuilt s → Writes s (lock_binding k now s).1
unfolding lock_binding
lock_binding-Writes k now s h built = elim (Option-cases (get k s.bindings)) [
  | inl e ↦ rw (e, lock_binding) (refl, inl refl)
  | inr (b, e) ↦ elim (Bool-cases (is_some b.locked_at)) [
    | inl f ↦ rw (e, f, lock_binding) (refl, inl refl)
    | inr f ↦
        rw (e, f, lock_binding)
          (keep-Writes k s (verified s.platform (locked now b)) (λ c g.
            let same : locked now b ≡ c = verified_made s.platform (locked now b) c g in
            (
              subst (IsBuilt s.platform) same (
                  locked-IsBuilt s.platform now b
                    (get-All (IsBuilt s.platform) k b s.bindings built e)),
              sym (ap plan_id_of same) ∙ get-IsKeyed plan_id_of k b s.bindings h e,
              unlocked k s b e f,
            )))
  ]
]

commit_binding-Writes :
    (b : RunEndpointBinding) (s : Store) → IsBuilt s.platform b → Writes s (commit_binding b s).1
unfolding commit_binding
commit_binding-Writes b s built = elim (Attempt-cases (verified s.platform b)) [
  | inl (es, e) ↦ rw (e, commit_binding) (refl, inl refl)
  | inr (c, e) ↦ elim (Bool-cases (is_locked b.plan_id s)) [
    | inl f ↦ rw (e, f, commit_binding) (refl, inl refl)
    | inr f ↦
        rw (e, f, commit_binding)
          (keep-Writes b.plan_id s (made b) (λ d g. (
            subst (IsBuilt s.platform) (made_value g) built,
            sym (ap plan_id_of (made_value g)),
            f,
          )))
  ]
]

pub preview_derived_binding_made :
    (input : DeriveInput) (now : ℕ) (s : Store) (b : RunEndpointBinding)
    → preview_derived_binding input now s ≡ made b
    → (parent : RunEndpointBinding) × (get input.parent_plan_id s.bindings ≡ some parent)
      × IsBuilt s.platform b
      × Fills (inherited parent input) now b
unfolding preview_derived_binding
preview_derived_binding_made input now s b e =
    elim (Option-cases (get input.parent_plan_id s.bindings)) [
      | inl f ↦ absurd (thrown-ne-made _ b (rw (f, preview_derived_binding) at e))
      | inr (parent, f) ↦
          let (built, fills) =
            build_binding-IsBuilt (inherited parent input) now s b
              (rw (f, preview_derived_binding) at e) in
          (parent, f, built, fills)
    ]

derive_binding-Writes :
    (input : DeriveInput) (now : ℕ) (s : Store) → Writes s (derive_binding input now s).1
unfolding derive_binding
derive_binding-Writes input now s = elim (Attempt-cases (preview_derived_binding input now s)) [
  | inl (es, e) ↦ rw (e, derive_binding) (refl, inl refl)
  | inr (b, e) ↦
      let (parent, f, built, fills) = preview_derived_binding_made input now s b e in
      rw (e, derive_binding) (commit_binding-Writes b s built)
]

step-Writes : (s : Store) (c : ℕ × Call) → HasKeys s → AllBuilt s → Writes s (step s c)
unfolding step
step-Writes s (now, creates input) h built = create_binding-Writes input now s h
step-Writes s (now, updates k input) h built = update_binding-Writes k input now s h
step-Writes s (now, locks k) h built = lock_binding-Writes k now s h built
step-Writes s (now, derives input) h built = derive_binding-Writes input now s

Writes-kept : (s t : Store) → HasKeys s → AllBuilt s → Writes s t → HasKeys t × AllBuilt t
Writes-kept s t h built (p, inl e) = rw (p, e) (h, built)
Writes-kept s t h built (p, inr (b, ok, free, e)) =
    rw (p, e)
      (
        set-IsKeyed plan_id_of b s.bindings h,
        All-values-set (IsBuilt s.platform) b.plan_id b s.bindings built ok,
      )

-- Every stored binding carries the digest of its fields, from 1 to 50 steps and from 1 to 20 rounds, the
-- high reasoning tier and a medium or low execution tier, a known project and an endpoint that can
-- execute, after any history from a store of such bindings, each under its plan.
pub run-AllBuilt :
    (s : Store) (cs : List (ℕ × Call))
    → HasKeys s
    → AllBuilt s
    → HasKeys (run s cs) × AllBuilt (run s cs)
unfolding run
run-AllBuilt s [] h built = (h, built)
run-AllBuilt s (c ∷ cs) h built =
    let (h', built') = Writes-kept s (step s c) h built (step-Writes s c h built) in
    run-AllBuilt (step s c) cs h' built'

Writes-locked :
    (s t : Store) (k : String) (b : RunEndpointBinding)
    → Writes s t
    → get k s.bindings ≡ some b
    → is_some b.locked_at ≡ true
    → get k t.bindings ≡ some b
Writes-locked s t k b (p, inl e) there locked = rw e there
Writes-locked s t k b (p, inr (c, ok, free, e)) there locked = elim (Bool-cases (c.plan_id == k)) [
  | inr other ↦ rw (e, get-set c.plan_id k c s.bindings, other) there
  | inl same ↦
      let there' : get c.plan_id s.bindings ≡ some b =
        ap (λ j. get j s.bindings) ((eq_iff c.plan_id k).0 same) ∙ there in
      absurd (ground (arith, rw (there', is_locked) at free))
]

-- A binding that is locked stays as it is, whatever is created, updated, locked or derived, from a store
-- of built bindings, each under its plan.
pub run_locked :
    (s : Store) (cs : List (ℕ × Call)) (k : String) (b : RunEndpointBinding)
    → HasKeys s
    → AllBuilt s
    → get k s.bindings ≡ some b
    → is_some b.locked_at ≡ true
    → get k (run s cs).bindings ≡ some b
unfolding run
run_locked s [] k b h built there lock = there
run_locked s (c ∷ cs) k b h built there lock =
    let w = step-Writes s c h built in
    let (h', built') = Writes-kept s (step s c) h built w in
    run_locked (step s c) cs k b h' built' (Writes-locked s (step s c) k b w there lock) lock
