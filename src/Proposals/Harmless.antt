-- ===== src/Proposals/Harmless.antt =====
-- Which arguments the command runner lets through: adapters/command-runner.ts.
use mathlib.Core.List.{append_assoc}
use cli_bridge.Common.{
  ℕ, ◌+◌, ◌≤◌, ◌≡◌, refl, sym, ap, ◌∙◌, ◌⊎◌, inl, inr, Bool, true, false, String, none, some, List,
  [], ◌∷◌, ◌++◌, arith, find, All, All-map, Option-cases, Bool-cases, nat_eq, code_points,
}
use cli_bridge.Proposals.Commands.{
  lower, lowered, begins, contains, is_forbidden, forbidden_arg, forbidden_arg_patterns,
}

-- The code of an argument stands for that of a pattern: the hyphen, or a letter in either case.
abbrev pub Letter : ℕ → ℕ → Type 0
Letter c d = ((c ≡ 45) × (d ≡ 45)) ⊎ ((97 ≤ c) × (c ≤ 122) × ((d ≡ c) ⊎ (d + 32 ≡ c)))

abbrev pub Spells : List ℕ → List ℕ → Type 0
Spells [] [] = Unit
Spells [] (d ∷ ds) = ⊥
Spells (c ∷ cs) [] = ⊥
Spells (c ∷ cs) (d ∷ ds) = Letter c d × Spells cs ds

-- Somewhere in the argument stands the pattern, in whatever case.
abbrev pub Holds : String → String → Type 0
Holds arg pattern =
    (before : List ℕ) × (found : List ℕ) × (after : List ℕ) × (code_points arg
      ≡ before ++ (found ++ after))
    × Spells (code_points pattern) found

-- No argument holds a pattern that takes the safeguards off.
abbrev pub IsHarmless : List String → Type 0
IsHarmless args =
    All
      (λ arg.
        All (λ pattern. ¬ Holds arg pattern)
          ("dangerously-bypass-approvals-and-sandbox" ∷ "dangerously-bypass-hook-trust"
            ∷ "dangerously-skip-permissions" ∷ "danger-full-access" ∷ "bypasspermissions" ∷ []))
      args

Letter-lower : (c d : ℕ) → Letter c d → lower d ≡ c ∷ []
Letter-lower c d (inl (a, b)) = ground (arith, a, b)
Letter-lower c d (inr (a, b, inl e)) = ground (arith, a, b, e)
Letter-lower c d (inr (a, b, inr e)) = ground (arith, a, b, e)

Spells-lowered : (cs ds : List ℕ) → Spells cs ds → lowered ds ≡ cs
Spells-lowered [] [] h = refl
Spells-lowered [] (d ∷ ds) h = absurd h
Spells-lowered (c ∷ cs) [] h = absurd h
Spells-lowered (c ∷ cs) (d ∷ ds) h =
    ap (λ l. l ++ lowered ds) (Letter-lower c d h.0) ∙ ap (λ l. c ∷ l) (Spells-lowered cs ds h.1)

lowered-append : (xs ys : List ℕ) → lowered (xs ++ ys) ≡ lowered xs ++ lowered ys
lowered-append [] ys = refl
lowered-append (x ∷ xs) ys =
    ap (λ l. lower x ++ l) (lowered-append xs ys)
    ∙ sym (append_assoc (lower x) (lowered xs) (lowered ys))

begins-append : (ps zs : List ℕ) → begins ps (ps ++ zs) ≡ true
begins-append [] zs = refl
begins-append (p ∷ ps) zs = ground (arith, begins-append ps zs)

begins-contains : (ps cs : List ℕ) → begins ps cs ≡ true → contains ps cs ≡ true
begins-contains ps [] e = e
begins-contains ps (c ∷ cs) e = ground (arith, e)

contains-append : (ps xs zs : List ℕ) → contains ps (xs ++ (ps ++ zs)) ≡ true
contains-append ps [] zs = begins-contains ps (ps ++ zs) (begins-append ps zs)
contains-append ps (x ∷ xs) zs = elim (Bool-cases (begins ps (x ∷ xs ++ (ps ++ zs)))) [
  | inl e ↦ ground (arith, e)
  | inr e ↦ ground (arith, e, contains-append ps xs zs)
]

Holds-is_forbidden : (arg pattern : String) → Holds arg pattern → is_forbidden arg pattern ≡ true
Holds-is_forbidden arg pattern (before, found, after, there, spelt) =
    let ps = code_points pattern in
    let tail : lowered (found ++ after) ≡ ps ++ lowered after =
      lowered-append found after ∙ ap (λ l. l ++ lowered after) (Spells-lowered ps found spelt) in
    let whole : lowered (code_points arg) ≡ lowered before ++ (ps ++ lowered after) =
      ap lowered there
      ∙ lowered-append before (found ++ after)
      ∙ ap (λ l. lowered before ++ l) tail in
    ap (contains ps) whole ∙ contains-append ps (lowered before) (lowered after)

find-none : (p : String → Bool) (xs : List String) → find p xs ≡ none → All (λ x. p x ≡ false) xs
find-none p [] e = tt
find-none p (x ∷ xs) e = elim (Bool-cases (p x)) [
  | inl f ↦ absurd (let clash : some x ≡ none = rw f at e in cc (clash))
  | inr f ↦ (f, find-none p xs (rw f at e))
]

pub forbidden_arg-IsHarmless : (args : List String) → forbidden_arg args ≡ none → IsHarmless args
unfolding forbidden_arg
forbidden_arg-IsHarmless [] e = tt
forbidden_arg-IsHarmless (arg ∷ args) e =
    elim (Option-cases (find (is_forbidden arg) forbidden_arg_patterns)) [
      | inr (pattern, f) ↦
          absurd (let clash : some pattern ≡ none = rw (f, forbidden_arg) at e in cc (clash))
      | inl f ↦ (
        All-map {P = λ (pattern : String). is_forbidden arg pattern ≡ false}
            {Q = λ (pattern : String). ¬ Holds arg pattern}
            (λ pattern no_such held. absurd (
              let clash : true ≡ false = sym (Holds-is_forbidden arg pattern held) ∙ no_such in
              cc (clash)))
            forbidden_arg_patterns (find-none (is_forbidden arg) forbidden_arg_patterns f),
        forbidden_arg-IsHarmless args (rw (f, forbidden_arg) at e),
      )
    ]
