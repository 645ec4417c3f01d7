-- ===== src/Pending/Objects.antt =====
-- Properties of every object of the store.
use cli_bridge.Common.{
  ℕ, suc, ◌<◌, ◌≡◌, refl, sym, ap, ◌∙◌, ◌⊎◌, inl, inr, false, String, some, List, arith, eq_iff,
  ◌==◌, nat_eq, string_eq, Bool-cases, Option-cases, unwrap, get, get-set, In,
}
use cli_bridge.Services.Audit.{AuditInput}
use cli_bridge.Services.Packets.{Services, id_or_uuid, create_and_append, random_uuid}
use cli_bridge.Pending.Model.{confirmed, pending_prompt_status_eq, PendingPrompt}
use cli_bridge.Pending.Store.{Store, lookup, put, audit}
use mathlib.Core.Path.{subst}

-- Of every object, whether the map leads to it or a waiting send holds it.
abbrev pub Every : (PendingPrompt → Type 0) → Store → Type 0
Every P s = (at : ℕ) (p : PendingPrompt) → s.objects at ≡ some p → P p

pub put-Every :
    (P : PendingPrompt → Type 0) (at : ℕ) (p : PendingPrompt) (s : Store)
    → Every P s
    → P p
    → Every P (put at p s)
unfolding put
put-Every P at p s h k j q e = elim (Bool-cases (j == s.allocated)) [
  | inl new ↦ (let e' : some p ≡ some q = rw (new, put) at e in subst P (unwrap e') k)
  | inr old ↦ elim (Bool-cases (j == at)) [
    | inl here ↦ (let e' : some p ≡ some q = rw (old, here, put) at e in subst P (unwrap e') k)
    | inr there ↦ h j q (rw (old, there, put) at e)
  ]
]

-- What the map leads to under an identifier is an object of the store.
pub lookup-object :
    (id : String) (at : ℕ) (p : PendingPrompt) (s : Store)
    → lookup id s ≡ some (at, p)
    → (get id s.prompts ≡ some at) × (s.objects at ≡ some p)
unfolding lookup
lookup-object id at p s e = (ground arith, ground arith)

-- The map leads to objects that are there, each under its own identifier.
abbrev pub Led : Store → Type 0
Led s =
    (id : String) (at : ℕ)
    → get id s.prompts ≡ some at
    → (at < s.allocated) × (p : PendingPrompt) × (s.objects at ≡ some p) × (p.id ≡ id)

pub lookup-Led :
    (id : String) (at : ℕ) (p : PendingPrompt) (s : Store)
    → Led s
    → lookup id s ≡ some (at, p)
    → p.id ≡ id
lookup-Led id at p s l e =
    let (got, here) = lookup-object id at p s e in
    let (below, q, there, same) = l id at got in
    let eq : some q ≡ some p = sym there ∙ here in
    ap (λ (r : PendingPrompt). r.id) (sym (unwrap eq)) ∙ same

-- The address is the next one, or that of an object with the same identifier.
abbrev pub Fits : ℕ → PendingPrompt → Store → Type 0
Fits at q s = (at ≡ s.allocated) ⊎ ((p : PendingPrompt) × (s.objects at ≡ some p) × (q.id ≡ p.id))

put_new : (at : ℕ) (p : PendingPrompt) (s : Store) → (put at p s).objects s.allocated ≡ some p
unfolding put
put_new at p s = ground arith

put_other :
    (at j : ℕ) (p : PendingPrompt) (s : Store)
    → j < s.allocated
    → (j == at) ≡ false
    → (put at p s).objects j ≡ s.objects j
unfolding put
put_other at j p s b e = ground arith

put_here : (at : ℕ) (p : PendingPrompt) (s : Store) → (put at p s).objects at ≡ some p
unfolding put
put_here at p s = ground arith

led_there :
    (at j : ℕ) (q : PendingPrompt) (s : Store) (id : String)
    → Fits at q s
    → (j < s.allocated) × (p : PendingPrompt) × (s.objects j ≡ some p) × (p.id ≡ id)
    → (j < suc s.allocated) × (p : PendingPrompt) × ((put at q s).objects j ≡ some p) × (p.id ≡ id)
led_there at j q s id f (b, p, e, i) = elim (Bool-cases (j == at)) [
  | inr other ↦ (omega arith, p, put_other at j q s b other ∙ e, i)
  | inl here ↦
      let same : j ≡ at = ground arith in
      elim f [
        | inl fresh ↦ absurd (omega (arith, same, fresh, b))
        | inr (p', e', i') ↦
            let eq : some p' ≡ some p = sym e' ∙ sym (ap s.objects same) ∙ e in
            (
              omega arith,
              q,
              ap (put at q s).objects same ∙ put_here at q s,
              i' ∙ ap (λ (r : PendingPrompt). r.id) (unwrap eq) ∙ i,
            )
      ]
]

pub put-Led : (at : ℕ) (q : PendingPrompt) (s : Store) → Led s → Fits at q s → Led (put at q s)
unfolding put
put-Led at q s l f id j e =
    let g = sym (get-set q.id id s.allocated s.prompts) ∙ e in
    elim (Bool-cases (q.id == id)) [
      | inl mine ↦
          let e' : some s.allocated ≡ some j = rw mine at g in
          let same : s.allocated ≡ j = unwrap e' in
          (
            omega (arith, same),
            q,
            ap (put at q s).objects (sym same) ∙ put_new at q s,
            ground (arith, eq_iff q.id id),
          )
      | inr other ↦ led_there at j q s id f (l id j (rw other at g))
    ]

-- From one state of the store to another by a write to an object, which keeps its identifier and its
-- text and is confirmed only if it was or if its identifier is one of the given; or by none.
abbrev pub Change : List String → Store → Store → Type 0
Change ids s t =
    (t ≡ s)
    ⊎ ((at : ℕ) × (p : PendingPrompt) × (q : PendingPrompt) × (w : Services) × (s.objects at
          ≡ some p)
        × (q.id ≡ p.id)
        × (q.prompt ≡ p.prompt)
        × (q.status ≡ confirmed → (p.status ≡ confirmed) ⊎ In q.id ids)
        × (w.env ≡ s.services.env)
        × (t ≡ record (put at q s) { services = w }))

-- What is known of every object: confirmed only with consent, and its text one of the given.
abbrev pub Consented : List String → List String → PendingPrompt → Type 0
Consented ids ts p = (p.status ≡ confirmed → In p.id ids) × In p.prompt ts

pub Change-Every :
    (ids ts : List String) (s t : Store)
    → Change ids s t
    → Every (Consented ids ts) s
    → Every (Consented ids ts) t
Change-Every ids ts s t (inl same) h = subst (Every (Consented ids ts)) (sym same) h
Change-Every ids ts s t (inr (at, p, q, w, there, id, text, may, env, same)) h =
    subst (Every (Consented ids ts)) (sym same) (
      put-Every (Consented ids ts) at q s h (
        λ c. elim (may c) [
          | inl was ↦ subst (λ i. In i ids) (sym id) ((h at p there).0 was)
          | inr consent ↦ consent
        ],
        subst (λ x. In x ts) (sym text) (h at p there).1,
      ))

pub Change-Led : (ids : List String) (s t : Store) → Change ids s t → Led s → Led t
Change-Led ids s t (inl same) l = subst Led (sym same) l
Change-Led ids s t (inr (at, p, q, w, there, id, text, may, env, same)) l =
    subst Led (sym same) (put-Led at q s l (inr (p, there, id)))

pub create_and_append-env :
    (input : AuditInput) (s : Services) → (create_and_append input s).env ≡ s.env
unfolding create_and_append random_uuid id_or_uuid
create_and_append-env input s = elim (Option-cases input.id) [
  | inl e ↦ rw (e, create_and_append) refl
  | inr (id, e) ↦ rw (e, create_and_append) refl
]

pub Change-env :
    (ids : List String) (s t : Store) → Change ids s t → t.services.env ≡ s.services.env
Change-env ids s t (inl same) = ap (λ (r : Store). r.services.env) same
Change-env ids s t (inr (at, p, q, w, there, id, text, may, env, same)) =
    ap (λ (r : Store). r.services.env) same ∙ env

pub put-Change :
    (ids : List String) (at : ℕ) (p q : PendingPrompt) (s : Store)
    → s.objects at ≡ some p
    → q.id ≡ p.id
    → q.prompt ≡ p.prompt
    → (q.status ≡ confirmed → (p.status ≡ confirmed) ⊎ In q.id ids)
    → Change ids s (put at q s)
unfolding put
put-Change ids at p q s e i x c = inr (at, p, q, s.services, e, i, x, c, refl, refl)

pub audit-Change :
    (ids : List String) (at : ℕ) (p q : PendingPrompt) (event : AuditInput) (s : Store)
    → s.objects at ≡ some p
    → q.id ≡ p.id
    → q.prompt ≡ p.prompt
    → (q.status ≡ confirmed → (p.status ≡ confirmed) ⊎ In q.id ids)
    → Change ids s (audit event (put at q s))
unfolding put
audit-Change ids at p q event s e i x c = inr (
  at,
  p,
  q,
  create_and_append event s.services,
  e,
  i,
  x,
  c,
  create_and_append-env event s.services,
  refl,
)
