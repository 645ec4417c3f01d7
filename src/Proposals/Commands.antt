-- ===== src/Proposals/Commands.antt =====
-- `validateCommandExecution` of apps/local-server/src/adapters/command-runner.ts.
use cli_bridge.Common.{
  ℕ, ◌+◌, Bool, true, false, ◌&&◌, ◌||◌, String, Option, none, some, List, [], ◌∷◌, ◌++◌,
  if◌then◌else◌, leb, ◌==◌, nat_eq, string_eq, find,
}
use cli_bridge.Common.{code_points}

-- `toLowerCase`, as far as the test for a text of ASCII can tell: the letters from A to Z, the Kelvin
-- sign, and the dotted capital I, which becomes two code points.
abbrev pub lower : ℕ → List ℕ
lower c =
    if leb 65 c && leb c 90
    then (c + 32) ∷ []
    else (if c == 0x212a then 107 ∷ [] else (if c == 0x130 then 105 ∷ 0x307 ∷ [] else c ∷ []))

abbrev pub lowered : List ℕ → List ℕ
lowered [] = []
lowered (c ∷ cs) = lower c ++ lowered cs

abbrev pub begins : List ℕ → List ℕ → Bool
begins [] cs = true
begins (d ∷ ds) [] = false
begins (d ∷ ds) (c ∷ cs) = c == d && begins ds cs

-- `text.includes(part)`
abbrev pub contains : List ℕ → List ℕ → Bool
contains part [] = begins part []
contains part (c ∷ cs) = begins part (c ∷ cs) || contains part cs

abbrev pub forbidden_arg_patterns : List String
forbidden_arg_patterns =
    "dangerously-bypass-approvals-and-sandbox" ∷ "dangerously-bypass-hook-trust"
    ∷ "dangerously-skip-permissions" ∷ "danger-full-access" ∷ "bypasspermissions" ∷ []

abbrev pub is_forbidden : String → String → Bool
is_forbidden arg pattern = contains (code_points pattern) (lowered (code_points arg))

-- The first forbidden pattern that occurs in the arguments: the reason `forbidden-arg:` names it. The
-- command is one of those allowed, and the arguments are texts.
unfoldable pub forbidden_arg : List String → Option String
forbidden_arg [] = none
forbidden_arg (arg ∷ args) = elim (find (is_forbidden arg) forbidden_arg_patterns) [
  | some pattern ↦ some pattern
  | none ↦ forbidden_arg args
]
