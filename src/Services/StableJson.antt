-- ===== src/Services/StableJson.antt =====
-- `stableJson` of apps/local-server/src/storage, on objects whose keys are written in their order.
use cli_bridge.Common.{String, List, [], ◌∷◌}
use Prim.Native.String.{◌++◌ as append}

abbrev pub joined : List String → String
joined [] = ""
joined (x ∷ []) = x
joined (x ∷ y ∷ xs) = append x (append "," (joined (y ∷ xs)))

-- A key as `JSON.stringify` writes it, and the text of its value.
abbrev pub json_field : (String → String) → String → String → String
json_field json_string key json = append (json_string key) (append ":" json)

abbrev pub json_object : List String → String
json_object fields = append "{" (append (joined fields) "}")

abbrev pub json_array : List String → String
json_array items = append "[" (append (joined items) "]")
