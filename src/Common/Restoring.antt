-- ===== src/Common/Restoring.antt =====
-- Writing the values of a keyed map, in whatever sorted order, into a map gives each key its value back.
use Prim.Native.Nat.{ℕ}
use Prim.Native.String.{String}
use mathlib.Core.Path.{◌≡◌, refl, ap, ◌∙◌}
use mathlib.Core.Logic.{inl, inr}
use mathlib.Core.Bool.{Bool}
use mathlib.Core.Option.{none, some}
use mathlib.Core.List.{List, [], ◌∷◌}
use native.Mathlib.Omega.{arith}
use text.Mathlib.TextEquality.{eq_iff}
use cli_bridge.Common.Tests.{◌==◌, string_eq, Bool-cases, leb, nat_eq}
use cli_bridge.Common.Lists.{find}
use cli_bridge.Common.Maps.{Map, get, set, values, IsKeyed, get-set}
use cli_bridge.Common.Sorting.{insert_sorted, sort_by}

module _ {V : Type 0} (key : V → String) where
  abbrev pub is_at : String → V → Bool
  is_at k v = key v == k

  abbrev pub IsDistinct : List V → Type 0
  IsDistinct [] = Unit
  IsDistinct (v ∷ vs) = (find (is_at (key v)) vs ≡ none) × IsDistinct vs

  -- `for (const v of vs) m.set(key(v), v)`
  unfoldable pub set_all : List V → Map V → Map V
  set_all [] m = m
  set_all (v ∷ vs) m = set_all vs (set (key v) v m)

  pub get-set_all :
      (k : String) (vs : List V) (m : Map V)
      → IsDistinct vs
      → get k (set_all vs m) ≡ (elim (find (is_at k) vs) [ none ↦ get k m | some v ↦ some v ])
  unfolding set_all
  get-set_all k [] m d = refl
  get-set_all k (v ∷ vs) m d = ground (
    arith,
    get-set_all k vs (set (key v) v m) d.1,
    get-set (key v) k v m,
    d.0,
    eq_iff (key v) k,
    ap (λ j. find (is_at j) vs),
  )

  pub find-values : (k : String) (m : Map V) → IsKeyed key m → find (is_at k) (values m) ≡ get k m
  unfolding get
  find-values k [] h = refl
  find-values k ((j, v) ∷ m) h =
      ground (arith, find-values k m h.2, h.0, eq_iff (key v) k, eq_iff j k)

  pub values-IsDistinct : (m : Map V) → IsKeyed key m → IsDistinct (values m)
  values-IsDistinct [] h = tt
  values-IsDistinct ((j, v) ∷ m) h =
      (find-values (key v) m h.2 ∙ ap (λ i. get i m) h.0 ∙ h.1, values-IsDistinct m h.2)

  -- The values, written into an empty map, are found where they were.
  pub get-set_all_kept :
      (k : String) (m : Map V) → IsKeyed key m → get k (set_all (values m) []) ≡ get k m
  unfolding get
  get-set_all_kept k m h =
      get-set_all k (values m) [] (values-IsDistinct m h) ∙ rw (find-values k m h) (ground arith)

  module _ (order : V → ℕ) where
    find-insert_sorted :
        (k : String) (v : V) (vs : List V)
        → find (is_at (key v)) vs ≡ none
        → find (is_at k) (insert_sorted order v vs) ≡ find (is_at k) (v ∷ vs)
    unfolding insert_sorted
    find-insert_sorted k v [] d = refl
    find-insert_sorted k v (w ∷ vs) d = ground (
      arith,
      find-insert_sorted k v vs,
      eq_iff (key v) k,
      eq_iff (key w) k,
      eq_iff (key w) (key v),
    )

    insert_sorted-IsDistinct :
        (v : V) (vs : List V)
        → find (is_at (key v)) vs ≡ none
        → IsDistinct vs
        → IsDistinct (insert_sorted order v vs)
    unfolding insert_sorted
    insert_sorted-IsDistinct v [] e d = (e, d)
    insert_sorted-IsDistinct v (w ∷ vs) e d = elim (Bool-cases (leb (order v) (order w))) [
      | inl le ↦ rw le (e, d)
      | inr gt ↦ rw gt (
        find-insert_sorted (key w) v vs (ground arith)
            ∙ ground (arith, d.0, eq_iff (key v) (key w), eq_iff (key w) (key v)),
        insert_sorted-IsDistinct v vs (ground arith) d.1,
      )
    ]

    pub find-sort_by :
        (k : String) (vs : List V)
        → IsDistinct vs
        → (find (is_at k) (sort_by order vs) ≡ find (is_at k) vs) × IsDistinct (sort_by order vs)
    unfolding sort_by
    find-sort_by k [] d = (refl, tt)
    find-sort_by k (v ∷ vs) d =
        let ih = find-sort_by k vs d.1 in
        let apart : find (is_at (key v)) (sort_by order vs) ≡ none =
          (find-sort_by (key v) vs d.1).0 ∙ d.0 in
        (
          find-insert_sorted k v (sort_by order vs) apart ∙ rw ih.0 refl,
          insert_sorted-IsDistinct v (sort_by order vs) apart ih.1,
        )

    -- The values, sorted and written into an empty map, are found where they were.
    pub get-set_all_sorted :
        (k : String) (m : Map V)
        → IsKeyed key m
        → get k (set_all (sort_by order (values m)) []) ≡ get k m
    unfolding get
    get-set_all_sorted k m h =
        let sorted = find-sort_by k (values m) (values-IsDistinct m h) in
        get-set_all k (sort_by order (values m)) [] sorted.1
        ∙ rw (sorted.0, find-values k m h) (ground arith)
