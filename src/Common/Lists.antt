-- ===== src/Common/Lists.antt =====
-- Lists: length, Boolean quantifiers, filtering by a Boolean test, and predicates by recursion.
use Prim.Native.Nat.{ℕ, suc, ◌+◌}
use mathlib.Core.Path.{◌≡◌, refl, ap, sym, ◌∙◌, subst}
use mathlib.Core.Logic.{◌⊎◌, inl, inr}
use mathlib.Core.Bool.{Bool, true, false, ◌&&◌, ◌||◌}
use mathlib.Core.Option.{Option, none, some}
use mathlib.Core.List.{List, [], ◌∷◌, ◌++◌}
use native.Mathlib.Omega.{arith}
use cli_bridge.Common.Tests.{if◌then◌else◌, Eq, ◌==◌, Bool-cases}

module _ {ℓ} {A : Type ℓ} where
  abbrev pub length : List A → ℕ
  length [] = 0
  length (x ∷ xs) = suc (length xs)

  pub length-append : (xs ys : List A) → length (xs ++ ys) ≡ length xs + length ys
  length-append [] ys = omega arith
  length-append (x ∷ xs) ys = omega (arith, length-append xs ys)

  abbrev pub all : (A → Bool) → List A → Bool
  all p [] = true
  all p (x ∷ xs) = p x && all p xs

  abbrev pub any : (A → Bool) → List A → Bool
  any p [] = false
  any p (x ∷ xs) = p x || any p xs

  -- `xs.filter(p)`
  abbrev pub filter : (A → Bool) → List A → List A
  filter p [] = []
  filter p (x ∷ xs) = if p x then x ∷ filter p xs else filter p xs

  -- The errors of several checks, in their order.
  abbrev pub concat : List (List A) → List A
  concat [] = []
  concat (xs ∷ xss) = xs ++ concat xss

  -- `xs.find(p)`
  abbrev pub find : (A → Bool) → List A → Option A
  find p [] = none
  find p (x ∷ xs) = if p x then some x else find p xs

  -- `xs[0]`
  abbrev pub head? : List A → Option A
  head? [] = none
  head? (x ∷ xs) = some x

-- To split on a computed list and keep the equation.
pub List-cases : {A : Type 0} (xs : List A) → (xs ≡ []) ⊎ ((y : A) × (ys : List A) × (xs ≡ y ∷ ys))
List-cases [] = inl refl
List-cases (x ∷ xs) = inr (x, xs, refl)

module _ {ℓ κ} {A : Type ℓ} (P : A → Type κ) where
  abbrev pub All : List A → Type κ
  All [] = Unit
  All (x ∷ xs) = P x × All xs

  pub All-append : (xs ys : List A) → All xs → All ys → All (xs ++ ys)
  All-append [] ys h k = k
  All-append (x ∷ xs) ys (p, h) k = (p, All-append xs ys h k)

pub filter-true : {A : Type 0} (xs : List A) → filter (λ x. true) xs ≡ xs
filter-true [] = refl
filter-true (x ∷ xs) = ap (λ ys. x ∷ ys) (filter-true xs)

pub filter-none :
    {A : Type 0} (p : A → Bool) (xs : List A) → filter p xs ≡ [] → All (λ x. p x ≡ false) xs
filter-none p [] e = tt
filter-none p (x ∷ xs) e = elim (Bool-cases (p x)) [
  | inl kept ↦ absurd (cons_nil (rw kept at e))
  | inr other ↦ (other, filter-none p xs (rw other at e))
]
  where
    cons_nil : {A : Type 0} {y : A} {ys : List A} → y ∷ ys ≡ [] → ⊥
    cons_nil f = cc

module _ {ℓ κ ι} {A : Type ℓ} {P : A → Type κ} {Q : A → Type ι} (f : (x : A) → P x → Q x) where
  pub All-map : (xs : List A) → All P xs → All Q xs
  All-map [] h = tt
  All-map (x ∷ xs) h = (f x h.0, All-map xs h.1)

-- `xs.includes(x)`
abbrev pub includes {ℓ} : {A : Type ℓ} ⦃e : Eq A⦄ → A → List A → Bool
includes x [] = false
includes x (y ∷ ys) = y == x || includes x ys

-- Membership by recursion, which computes to a sum.
abbrev pub In : {A : Type 0} → A → List A → Type 0
In x [] = ⊥
In x (y ∷ ys) = (y ≡ x) ⊎ In x ys

module _ {κ} {A : Type 0} (P : A → Type κ) where
  pub All-In : (xs : List A) {x : A} → All P xs → In x xs → P x
  All-In [] h i = absurd i
  All-In (y ∷ ys) h (inl e) = subst P e h.0
  All-In (y ∷ ys) h (inr i) = All-In ys h.1 i

  pub In-All : (xs : List A) → ((x : A) → In x xs → P x) → All P xs
  In-All [] f = tt
  In-All (x ∷ xs) f = (f x (inl refl), In-All xs (λ y i. f y (inr i)))

module _ {A : Type 0} where
  pub In-append : (x : A) (xs ys : List A) → In x (xs ++ x ∷ ys)
  In-append x [] ys = inl refl
  In-append x (y ∷ xs) ys = inr (In-append x xs ys)

  pub In-filter : (p : A → Bool) (x : A) (xs : List A) → In x (filter p xs) → In x xs × (p x ≡ true)
  In-filter p x [] h = absurd h
  In-filter p x (y ∷ ys) h = elim (Bool-cases (p y)) [
    | inl e ↦
        let h' : (y ≡ x) ⊎ In x (filter p ys) = rw e at h in
        elim h' [
          | inl same ↦ (inl same, ap p (sym same) ∙ e)
          | inr later ↦ (let ih = In-filter p x ys later in (inr ih.0, ih.1))
        ]
    | inr e ↦ (let ih = In-filter p x ys (rw e at h) in (inr ih.0, ih.1))
  ]

  pub filter-In : (p : A → Bool) (x : A) (xs : List A) → In x xs → p x ≡ true → In x (filter p xs)
  filter-In p x [] h e = absurd h
  filter-In p x (y ∷ ys) (inl same) e = let kept : p y ≡ true = ap p same ∙ e in rw kept (inl same)
  filter-In p x (y ∷ ys) (inr later) e = elim (Bool-cases (p y)) [
    | inl f ↦ rw f (inr (filter-In p x ys later e))
    | inr f ↦ rw f (filter-In p x ys later e)
  ]
