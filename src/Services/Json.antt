-- ===== src/Services/Json.antt =====
-- JSON values, as packages/shared/src/types.ts has them. Numbers are natural numbers.
use cli_bridge.Common.{
  ℕ, Bool, String, Option, none, some, List, [], ◌∷◌, ◌==◌, string_eq, if◌then◌else◌,
}

mutual
  pub data Json : Type 0 where
    null : Json
    bool : Bool → Json
    num : ℕ → Json
    str : String → Json
    list : JsonArray → Json
    obj : JsonObject → Json

  pub data JsonArray : Type 0 where
    done : JsonArray
    item : Json → JsonArray → JsonArray

  pub data JsonObject : Type 0 where
    end : JsonObject
    field : String → Json → JsonObject → JsonObject

-- `record[key]` of a value that `JSON.parse` returned, whose objects hold a key once.
unfoldable pub json_get : String → JsonObject → Option Json
json_get key end = none
json_get key (field k v rest) = if k == key then some v else json_get key rest

-- The value, if it is a string, a number, or a Boolean.
abbrev pub as_string : Option Json → Option String
as_string (some (str s)) = some s
as_string _ = none

abbrev pub as_number : Option Json → Option ℕ
as_number (some (num n)) = some n
as_number _ = none

abbrev pub as_bool : Option Json → Option Bool
as_bool (some (bool b)) = some b
as_bool _ = none

abbrev pub items : JsonArray → List Json
items done = []
items (item v rest) = v ∷ items rest

-- The elements of a value that is an array, and none of any other.
abbrev pub as_items : Option Json → List Json
as_items (some (list vs)) = items vs
as_items _ = []
