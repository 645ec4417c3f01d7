-- ===== src/Common/Sorting.antt =====
-- `xs.sort((a, b) => key(a) - key(b))`, which is stable, and the first element of its result.
use Prim.Native.Nat.{suc, ℕ, ◌≤◌, ◌<◌}
use mathlib.Core.Path.{◌≡◌, refl, ap, ◌∙◌}
use mathlib.Core.Option.{Option, none, some}
use mathlib.Core.List.{List, [], ◌∷◌, ◌++◌}
use native.Mathlib.Omega.{arith}
use cli_bridge.Common.Tests.{leb, if◌then◌else◌, Bool-cases, Option-cases}
use mathlib.Core.Logic.{◌≢◌, ◌⊎◌, inl, inr}
use cli_bridge.Common.Lists.{All-In, In-All, head?, All, In, In-append, length}

module _ {ℓ} {A : Type ℓ} (key : A → ℕ) where
  -- `x` stood before all of the list, and so stays before its equals.
  unfoldable pub insert_sorted : A → List A → List A
  insert_sorted x [] = x ∷ []
  insert_sorted x (y ∷ ys) = if leb (key x) (key y) then x ∷ y ∷ ys else y ∷ insert_sorted x ys

  unfoldable pub sort_by : List A → List A
  unfolding insert_sorted
  sort_by [] = []
  sort_by (x ∷ xs) = insert_sorted x (sort_by xs)

  -- The element with the least key that stands first.
  unfoldable pub earliest : List A → Option A
  earliest [] = none
  earliest (x ∷ xs) = elim (earliest xs) [
    | none ↦ some x
    | some y ↦ if leb (key x) (key y) then some x else some y
  ]

  head?-insert_sorted :
      (x : A) (ys : List A)
      → head? (insert_sorted x ys) ≡ (elim (head? ys) [
        | none ↦ some x
        | some y ↦ if leb (key x) (key y) then some x else some y
      ])
  unfolding insert_sorted
  head?-insert_sorted x [] = refl
  head?-insert_sorted x (y ∷ ys) = ground arith

  pub head?-sort_by : (xs : List A) → head? (sort_by xs) ≡ earliest xs
  unfolding sort_by earliest
  head?-sort_by [] = refl
  head?-sort_by (x ∷ xs) = ground (arith, head?-insert_sorted x (sort_by xs), head?-sort_by xs)

  pub earliest-ne-none : (x : A) (xs : List A) → earliest (x ∷ xs) ≢ none
  unfolding earliest
  earliest-ne-none x xs = ground arith

  -- `x` is the first of the elements of `xs` with the least key.
  abbrev pub IsFirst : A → List A → Type ℓ
  IsFirst x xs =
      (before : List A) × (after : List A) × (xs ≡ before ++ x ∷ after)
      × All (λ y. key x < key y) before
      × All (λ y. key x ≤ key y) after

  earliest-none : (xs : List A) → earliest xs ≡ none → xs ≡ []
  earliest-none [] e = refl
  earliest-none (x ∷ xs) e = absurd (earliest-ne-none x xs e)

  All-le : (m n : ℕ) (xs : List A) → m ≤ n → All (λ y. n ≤ key y) xs → All (λ y. m ≤ key y) xs
  All-le m n [] h k = tt
  All-le m n (x ∷ xs) h k = (omega arith, All-le m n xs h k.1)

  All-le_append :
      (n : ℕ) (before after : List A)
      → All (λ y. n < key y) before
      → All (λ y. n ≤ key y) after
      → All (λ y. n ≤ key y) (before ++ after)
  All-le_append n [] after h k = k
  All-le_append n (x ∷ before) after h k = (omega arith, All-le_append n before after h.1 k)

  IsFirst-least : (x : A) (xs : List A) → IsFirst x xs → All (λ y. key x ≤ key y) xs
  IsFirst-least x xs (before, after, e, h, k) =
      rw e (All-le_append (key x) before (x ∷ after) h (omega arith, k))

  pub earliest-IsFirst : (x : A) (xs : List A) → earliest xs ≡ some x → IsFirst x xs
  unfolding earliest
  earliest-IsFirst x [] e = absurd (cc)
  earliest-IsFirst x (y ∷ ys) e = elim (Option-cases (earliest ys)) [
    | inl h ↦ ([], ys, ground arith, tt, rw (earliest-none ys h) tt)
    | inr (z, h) ↦
        let ih = earliest-IsFirst z ys h in
        elim (Bool-cases (leb (key y) (key z))) [
          | inl le ↦
              let same : y ≡ x = ground arith in
              (
                [],
                ys,
                ap (λ w. w ∷ ys) same,
                tt,
                rw (← same) (All-le (key y) (key z) ys (ground arith) (IsFirst-least z ys ih)),
              )
          | inr gt ↦
              let same : z ≡ x = ground arith in
              let (before, after, eq, less, least) = ih in
              rw (← same) (y ∷ before, after, ap (λ l. y ∷ l) eq, (ground arith, less), least)
        ]
  ]

  pub head?-sort_by-none : (xs : List A) → head? (sort_by xs) ≡ none → xs ≡ []
  head?-sort_by-none xs e = earliest-none xs (rw (head?-sort_by xs) at e)

  -- What `sort` puts first is there, and is the first of the least.
  pub head?-sort_by-IsFirst : (x : A) (xs : List A) → head? (sort_by xs) ≡ some x → IsFirst x xs
  head?-sort_by-IsFirst x xs e = earliest-IsFirst x xs (rw (head?-sort_by xs) at e)

module _ {A : Type 0} (key : A → ℕ) where
  pub head?-sort_by-In : (x : A) (xs : List A) → head? (sort_by key xs) ≡ some x → In x xs
  head?-sort_by-In x xs e =
      let (before, after, eq, h, k) = head?-sort_by-IsFirst key x xs e in
      rw eq (In-append x before after)

module _ {ℓ κ} {A : Type ℓ} (key : A → ℕ) (P : A → Type κ) where
  All-insert_sorted : (x : A) (xs : List A) → P x → All P xs → All P (insert_sorted key x xs)
  unfolding insert_sorted
  All-insert_sorted x [] p h = (p, tt)
  All-insert_sorted x (y ∷ ys) p h = elim (Bool-cases (leb (key x) (key y))) [
    | inl le ↦ rw le (p, h)
    | inr gt ↦ rw gt (h.0, All-insert_sorted x ys p h.1)
  ]

  pub All-sort_by : (xs : List A) → All P xs → All P (sort_by key xs)
  unfolding sort_by
  All-sort_by [] h = tt
  All-sort_by (x ∷ xs) h = All-insert_sorted x (sort_by key xs) h.0 (All-sort_by xs h.1)

module _ {ℓ} {A : Type ℓ} (key : A → ℕ) where
  length-insert_sorted : (x : A) (xs : List A) → length (insert_sorted key x xs) ≡ suc (length xs)
  unfolding insert_sorted
  length-insert_sorted x [] = refl
  length-insert_sorted x (y ∷ ys) = ground (arith, length-insert_sorted x ys)

  pub length-sort_by : (xs : List A) → length (sort_by key xs) ≡ length xs
  unfolding sort_by
  length-sort_by [] = refl
  length-sort_by (x ∷ xs) = length-insert_sorted x (sort_by key xs) ∙ ap suc (length-sort_by xs)

module _ {A : Type 0} (key : A → ℕ) where
  insert_sorted-In : (x y : A) (ys : List A) → (y ≡ x) ⊎ In x ys → In x (insert_sorted key y ys)
  unfolding insert_sorted
  insert_sorted-In x y [] h = h
  insert_sorted-In x y (z ∷ zs) h = elim (Bool-cases (leb (key y) (key z))) [
    | inl le ↦ rw le h
    | inr gt ↦ rw gt (elim h [
      | inl same ↦ inr (insert_sorted-In x y zs (inl same))
      | inr (inl same) ↦ inl same
      | inr (inr later) ↦ inr (insert_sorted-In x y zs (inr later))
    ])
  ]

  pub sort_by-In : (x : A) (xs : List A) → In x xs → In x (sort_by key xs)
  unfolding sort_by
  sort_by-In x [] h = absurd h
  sort_by-In x (y ∷ ys) (inl same) = insert_sorted-In x y (sort_by key ys) (inl same)
  sort_by-In x (y ∷ ys) (inr later) =
      insert_sorted-In x y (sort_by key ys) (inr (sort_by-In x ys later))

  pub sorted-In : (x : A) (xs : List A) → In x (sort_by key xs) → In x xs
  sorted-In x xs i =
      All-In _ (sort_by key xs) (All-sort_by key (λ y. In y xs) xs (In-All _ xs (λ y j. j))) i
