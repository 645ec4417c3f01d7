-- ===== src/Common/Maps.antt =====
-- JavaScript's `Map` with string keys: entries in the order in which their keys were first set.
use Prim.Native.String.{String}
use mathlib.Core.Path.{◌≡◌, refl, ap, ◌∙◌}
use mathlib.Core.Logic.{inl, inr}
use cli_bridge.Common.Lists.{In, All}
use mathlib.Core.Option
use mathlib.Core.Option.{Option, none, some}
use mathlib.Core.Path.{subst}
use mathlib.Core.List.{List, [], ◌∷◌}
use native.Mathlib.Omega.{arith}
use text.Mathlib.TextEquality.{eq_iff}
use cli_bridge.Common.Tests.{if◌then◌else◌, ◌==◌, string_eq, Bool-cases, unwrap}

abbrev pub Map {ℓ} : Type ℓ → Type ℓ
Map V = List (String × V)

module _ {ℓ} {V : Type ℓ} where
  unfoldable pub get : String → Map V → Option V
  get k [] = none
  get k ((j, v) ∷ m) = if j == k then some v else get k m

  unfoldable pub set : String → V → Map V → Map V
  set k v [] = (k, v) ∷ []
  set k v ((j, w) ∷ m) = if j == k then (j, v) ∷ m else (j, w) ∷ set k v m

  -- `m.delete(k)`
  unfoldable pub delete : String → Map V → Map V
  delete k [] = []
  delete k ((j, v) ∷ m) = if j == k then m else (j, v) ∷ delete k m

  abbrev pub values : Map V → List V
  values [] = []
  values ((k, v) ∷ m) = v ∷ values m

  -- One pass over the entries that writes each value anew under its own key.
  unfoldable pub map_values : (V → V) → Map V → Map V
  map_values f [] = []
  map_values f ((k, v) ∷ m) = (k, f v) ∷ map_values f m

  pub get-set :
      (k j : String) (v : V) (m : Map V) → get j (set k v m) ≡ (if k == j then some v else get j m)
  unfolding get set
  get-set k j v [] = refl
  get-set k j v ((i, w) ∷ m) = ground (arith, eq_iff k j, eq_iff i k, eq_iff i j, get-set k j v m)

  pub get-set_self : (k : String) (v : V) (m : Map V) → get k (set k v m) ≡ some v
  get-set_self k v m = ground (arith, get-set k k v m, eq_iff k k)

  pub get-map_values :
      (f : V → V) (k : String) (m : Map V) → get k (map_values f m) ≡ Option.map f (get k m)
  unfolding get map_values
  get-map_values f k [] = refl
  get-map_values f k ((j, v) ∷ m) = ground (arith, get-map_values f k m)

-- A store of records keeps each under the record's own key, and no key twice.
module _ {ℓ} {V : Type ℓ} (key : V → String) where
  abbrev pub IsKeyed : Map V → Type ℓ
  IsKeyed [] = Unit
  IsKeyed ((k, v) ∷ m) = (key v ≡ k) × (get k m ≡ none) × IsKeyed m

  pub get-IsKeyed : (k : String) (v : V) (m : Map V) → IsKeyed m → get k m ≡ some v → key v ≡ k
  unfolding get
  get-IsKeyed k v [] h e = absurd (cc)
  get-IsKeyed k v ((j, w) ∷ m) h e = ground (arith, eq_iff j k, get-IsKeyed k v m h.2, ap key)

  pub set-IsKeyed : (v : V) (m : Map V) → IsKeyed m → IsKeyed (set (key v) v m)
  unfolding get set
  set-IsKeyed v [] h = (refl, refl, tt)
  set-IsKeyed v ((j, w) ∷ m) h =
      ground (arith, eq_iff j (key v), eq_iff (key v) j, set-IsKeyed v m h.2, get-set (key v) j v m)

  pub map_values-IsKeyed :
      (f : V → V) (m : Map V) → ((v : V) → key (f v) ≡ key v) → IsKeyed m → IsKeyed (map_values f m)
  unfolding map_values
  map_values-IsKeyed f [] e h = tt
  map_values-IsKeyed f ((j, w) ∷ m) e h =
      (e w ∙ h.0, rw (get-map_values f j m, h.1) refl, map_values-IsKeyed f m e h.2)

module _ {V : Type 0} (key : V → String) where
  pub In-values : (v : V) (m : Map V) → IsKeyed key m → In v (values m) → get (key v) m ≡ some v
  unfolding get
  In-values v [] h i = absurd i
  In-values v ((j, w) ∷ m) h (inl e) = ground (arith, eq_iff j (key v), ap key e)
  In-values v ((j, w) ∷ m) h (inr i) = ground (arith, eq_iff j (key v), In-values v m h.2 i)

module _ {ℓ κ} {V : Type ℓ} (P : V → Type κ) where
  pub All-values-set :
      (k : String) (v : V) (m : Map V) → All P (values m) → P v → All P (values (set k v m))
  unfolding set
  All-values-set k v [] h p = (p, tt)
  All-values-set k v ((j, w) ∷ m) h p = elim (Bool-cases (j == k)) [
    | inl e ↦ rw e (p, h.1)
    | inr e ↦ rw e (h.0, All-values-set k v m h.1 p)
  ]

  pub get-All : (k : String) (v : V) (m : Map V) → All P (values m) → get k m ≡ some v → P v
  unfolding get
  get-All k v [] h e = absurd (cc)
  get-All k v ((j, w) ∷ m) h e = elim (Bool-cases (j == k)) [
    | inl same ↦ (let e' : some w ≡ some v = rw same at e in subst P (unwrap e') h.0)
    | inr other ↦ get-All k v m h.1 (rw other at e)
  ]
