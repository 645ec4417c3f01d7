-- ===== src/Common/Text.antt =====
-- What the source asks of a string: its truth value, whether it is blank, its length.
use Prim.Native.Nat.{ℕ, ◌+◌}
use Prim.Native.Char.{code}
use Prim.Native.String.{String}
use mathlib.Core.Bool.{Bool, true, false, ◌&&◌, ◌||◌}
use mathlib.Core.Option.{Option, none, some}
use mathlib.Core.List.{List, [], ◌∷◌, reverse}
use cli_bridge.Common.Tests.{ltb, leb, if◌then◌else◌, ◌==◌, nat_eq}

-- JavaScript's white space and line terminators, which `trim` removes.
abbrev pub is_space : ℕ → Bool
is_space c =
    (leb 0x9 c && leb c 0xd)
    || c == 0x20
    || c == 0xa0
    || c == 0x1680
    || (leb 0x2000 c && leb c 0x200a)
    || c == 0x2028
    || c == 0x2029
    || c == 0x202f
    || c == 0x205f
    || c == 0x3000
    || c == 0xfeff

-- `s.trim().length === 0`
unfoldable pub is_blank : String → Bool
is_blank String.[] = true
is_blank (String.◌∷◌ c s) = is_space (code c) && is_blank s

-- The truth value of a string.
abbrev pub is_empty : String → Bool
is_empty String.[] = true
is_empty (String.◌∷◌ c s) = false

-- `...(x ? { x } : {})`: an empty string is dropped like an absent one.
abbrev pub truthy : Option String → Option String
truthy none = none
truthy (some s) = if is_empty s then none else some s

-- `s.length`, in UTF-16 code units.
unfoldable pub utf16_length : String → ℕ
utf16_length String.[] = 0
utf16_length (String.◌∷◌ c s) = (if ltb (code c) 0x10000 then 1 else 2) + utf16_length s

abbrev pub code_points : String → List ℕ
code_points String.[] = []
code_points (String.◌∷◌ first rest) = code first ∷ code_points rest

drop_spaces : List ℕ → List ℕ
drop_spaces [] = []
drop_spaces (c ∷ cs) = if is_space c then drop_spaces cs else c ∷ cs

units : List ℕ → ℕ
units [] = 0
units (c ∷ cs) = (if ltb c 0x10000 then 1 else 2) + units cs

-- `s.trim().length`
unfoldable pub trimmed_length : String → ℕ
unfolding drop_spaces units
trimmed_length s = units (reverse (drop_spaces (reverse (drop_spaces (code_points s)))))
