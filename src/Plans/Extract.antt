-- ===== src/Plans/Extract.antt =====
-- Where the answer of a model holds the JSON of a plan: `stripJsonFence` and `extractPlanCandidate`.
-- `JSON.parse` is a parameter, which answers nothing where it would throw.
use cli_bridge.Common.{
  ℕ, suc, Bool, false, ◌&&◌, String, Option, none, some, if◌then◌else◌, ◌==◌, nat_eq, string_eq,
  or_else, is_some, is_empty,
}
use Prim.Native.String.{◌++◌ as append}
use cli_bridge.Common.{is_space}
use Prim.Native.Char.{code}
use cli_bridge.Services.Json.{Json, obj, json_get, as_string}

unfoldable pub trim_start : String → String
trim_start String.[] = ""
trim_start (String.◌∷◌ c s) = if is_space (code c) then trim_start s else String.◌∷◌ c s

unfoldable pub trim_end : String → String
trim_end String.[] = ""
trim_end (String.◌∷◌ c s) =
    let rest = trim_end s in if is_empty rest && is_space (code c) then "" else String.◌∷◌ c rest

abbrev pub trim : String → String
trim s = trim_end (trim_start s)

-- What follows the prefix, if the text starts with it.
unfoldable pub after_prefix : String → String → Option String
after_prefix String.[] s = some s
after_prefix (String.◌∷◌ c p) String.[] = none
after_prefix (String.◌∷◌ c p) (String.◌∷◌ d s) = if code c == code d then after_prefix p s else none

-- What stands before the suffix, if the text ends with it.
unfoldable pub before_suffix : String → String → Option String
before_suffix p String.[] = if is_empty p then some "" else none
before_suffix p (String.◌∷◌ c s) =
    let rest = before_suffix p s in
    if String.◌∷◌ c s == p
    then some ""
    else elim rest [ none ↦ none | some t ↦ some (String.◌∷◌ c t) ]

-- The text between ``` or ```json and ```, if that is all there is.
unfoldable pub strip_json_fence : String → String
unfolding after_prefix before_suffix trim_start trim_end
strip_json_fence text =
    let trimmed = trim text in
    elim (after_prefix "```" trimmed) [
      | none ↦ trimmed
      | some opened ↦
          let body = or_else (after_prefix "json" opened) opened in
          elim (before_suffix "```" body) [ none ↦ trimmed | some inner ↦ trim inner ]
    ]

abbrev pub Parse : Type 0
Parse = String → Option Json

-- `JSON.parse` gives an object whose `goalId` is a text.
unfoldable pub is_plan_json : Parse → String → Bool
is_plan_json parse text = elim (parse text) [
  | some (obj fields) ↦ is_some (as_string (json_get "goalId" fields))
  | _ ↦ false
]

-- The loop over the characters: how many braces were opened and closed, and the text since the last
-- brace that was opened at depth zero.
unfoldable pub find_block : Parse → ℕ → ℕ → String → String → Option String
unfolding is_plan_json
find_block parse opened closed block String.[] = none
find_block parse opened closed block (String.◌∷◌ c s) =
    let grown = append block (String.◌∷◌ c "") in
    let after_start = find_block parse (suc opened) closed (String.◌∷◌ c "") s in
    let after_open = find_block parse (suc opened) closed grown s in
    let after_close = find_block parse opened (suc closed) grown s in
    let after_other = find_block parse opened closed grown s in
    if code c == 0x7b
    then (if opened == closed then after_start else after_open)
    else (if code c == 0x7d
        then (if opened == suc closed && is_plan_json parse grown then some grown else after_close)
        else after_other)

unfoldable pub extract_plan_candidate : Parse → String → Option String
unfolding find_block
extract_plan_candidate parse text =
    let trimmed = trim text in
    if is_empty trimmed
    then none
    else (if is_plan_json parse trimmed then some trimmed else find_block parse 0 0 "" trimmed)
