-- ===== src/Json/Patch.antt =====
-- src/filters/engine/json/patch.rs. serde_json and the json_patch library are the parameter `lib`.
pub mod RoundTrip
use Prim.Native.String.{String}
use inspect.Common.{
  Bool, true, false, ◌&&◌, Option, none, some, List, [], ◌∷◌, ◌++◌, map, Str, codes, decimal,
  str_eq, lines, unwrap_or, if◌then◌else◌,
}
use inspect.Diff.{
  DiffEvent, DiffNode, DiffPath, DiffPathSegment, DiffSource, BodyDiffSource, insert, delete,
  json_key, json_index, replace_char, event_source,
}
use inspect.Json.{
  Value, Items, Fields, null, bool, number, string, array, object, nil, item, end, field, get_field,
  get_key, as_str, value_eq,
}

pub data GeneratedJsonPatchOperation : Type 0 where
  add : (path value : Str) → GeneratedJsonPatchOperation
  remove : (path : Str) → GeneratedJsonPatchOperation
  replace : (path value : Str) → GeneratedJsonPatchOperation
  move : (from path : Str) → GeneratedJsonPatchOperation

-- `from_str` of a value and of a patch are none for a text that is none; a patch is what it makes of a
-- value, none if it fails.
pub record JsonLib : Type 0 where
  pub from_str : Str → Option Value
  pub to_string : Value → Str
  pub to_string_pretty : Value → Str
  pub patch_from_str : Str → Option (Value → Option Value)
  pub diff : Value → Value → Value
  pub merge : Value → Value → Value

-- `json!({ .. })`, with the keys in ascending order.
abbrev pub one_more : String → Value → Fields → Fields
one_more key v rest = field (codes key) v rest

-- The values of the list as an array.
unfoldable pub to_items : List Value → Items
to_items [] = nil
to_items (v ∷ vs) = item v (to_items vs)

module _ (lib : JsonLib) where
  open lib use {from_str, to_string, to_string_pretty, patch_from_str}

  unfoldable pub parse_json_patch_value : Str → Value
  parse_json_patch_value value = unwrap_or (from_str value) (string value)

  unfoldable pub json_patch_value_to_string : Value → Str
  json_patch_value_to_string v = to_string v

  unfoldable pub to_rfc6902_value : GeneratedJsonPatchOperation → Value
  unfolding parse_json_patch_value
  to_rfc6902_value (add path value) = object (
      one_more "op" (string (codes "add"))
        (one_more "path" (string path) (one_more "value" (parse_json_patch_value value) end)))
  to_rfc6902_value (remove path) =
      object (one_more "op" (string (codes "remove")) (one_more "path" (string path) end))
  to_rfc6902_value (GeneratedJsonPatchOperation.replace path value) = object (
      one_more "op" (string (codes "replace"))
        (one_more "path" (string path) (one_more "value" (parse_json_patch_value value) end)))
  to_rfc6902_value (GeneratedJsonPatchOperation.move from path) = object (
      one_more "from" (string from)
        (one_more "op" (string (codes "move")) (one_more "path" (string path) end)))

  abbrev pub str_at :
      String
      → Value
      → (Str → Option GeneratedJsonPatchOperation)
      → Option GeneratedJsonPatchOperation
  str_at key v next = elim (get_key (codes key) v) [
    | none ↦ none
    | some w ↦ elim (as_str w) [ none ↦ none | some s ↦ next s ]
  ]

  abbrev pub value_at :
      Value → (Value → GeneratedJsonPatchOperation) → Option GeneratedJsonPatchOperation
  value_at v next = elim (get_key (codes "value") v) [ none ↦ none | some w ↦ some (next w) ]

  unfoldable pub from_rfc6902_value : Value → Option GeneratedJsonPatchOperation
  unfolding get_key as_str str_eq json_patch_value_to_string
  from_rfc6902_value v = str_at "op" v λ op.
      if str_eq op (codes "add")
      then str_at "path" v (λ path. value_at v (λ w. add path (json_patch_value_to_string w)))
      else if str_eq op (codes "remove")
      then str_at "path" v (λ path. some (remove path))
      else if str_eq op (codes "replace")
      then str_at "path" v (λ path.
        value_at v (λ w. GeneratedJsonPatchOperation.replace path (json_patch_value_to_string w)))
      else if str_eq op (codes "move")
      then str_at "from" v
          (λ from. str_at "path" v (λ path. some (GeneratedJsonPatchOperation.move from path)))
      else none

  unfoldable pub json_patch_operations_to_rfc6902_json : List GeneratedJsonPatchOperation → Str
  unfolding to_rfc6902_value to_items
  json_patch_operations_to_rfc6902_json operations =
      to_string_pretty (array (to_items (map to_rfc6902_value operations)))

  -- `filter_map`.
  unfoldable pub operations_of : Items → List GeneratedJsonPatchOperation
  unfolding from_rfc6902_value
  operations_of nil = []
  operations_of (item v items) = elim (from_rfc6902_value v) [
    | none ↦ operations_of items
    | some operation ↦ operation ∷ operations_of items
  ]

  unfoldable pub operations_of_value : Option Value → List GeneratedJsonPatchOperation
  unfolding operations_of
  operations_of_value (some (array items)) = operations_of items
  operations_of_value _ = []

  unfoldable pub json_patch_operations_from_rfc6902_json : Str → List GeneratedJsonPatchOperation
  unfolding operations_of_value
  json_patch_operations_from_rfc6902_json patch_json = operations_of_value (from_str patch_json)

  unfoldable pub diff_json_patch_operations : Str → Str → Option (List GeneratedJsonPatchOperation)
  unfolding json_patch_operations_from_rfc6902_json
  diff_json_patch_operations original edited = elim (from_str original) [
    | none ↦ none
    | some v ↦ elim (from_str edited) [
      | none ↦ none
      | some w ↦ some (json_patch_operations_from_rfc6902_json (to_string (lib.diff v w)))
    ]
  ]

  unfoldable pub diff_json_patch_rfc6902_json : Str → Str → Option Str
  diff_json_patch_rfc6902_json original edited = elim (from_str original) [
    | none ↦ none
    | some v ↦ elim (from_str edited) [
      | none ↦ none
      | some w ↦ some (to_string_pretty (lib.diff v w))
    ]
  ]

  unfoldable pub apply_json_patch_rfc6902_json : Str → Str → Option Str
  apply_json_patch_rfc6902_json original patch_json = elim (from_str original) [
    | none ↦ none
    | some v ↦ elim (patch_from_str patch_json) [
      | none ↦ none
      | some patch ↦ elim (patch v) [ none ↦ none | some w ↦ some (to_string w) ]
    ]
  ]

  unfoldable pub apply_json_merge_patch_json : Str → Str → Option Str
  apply_json_merge_patch_json original merge_patch_json = elim (from_str original) [
    | none ↦ none
    | some v ↦ elim (from_str merge_patch_json) [
      | none ↦ none
      | some patch ↦ some (to_string (lib.merge v patch))
    ]
  ]

  unfoldable pub validate_json_patch_operations :
      Str → Str → List GeneratedJsonPatchOperation → Bool
  unfolding apply_json_patch_rfc6902_json json_patch_operations_to_rfc6902_json value_eq
  validate_json_patch_operations original edited operations =
      elim (apply_json_patch_rfc6902_json original
        (json_patch_operations_to_rfc6902_json operations)) [
          | none ↦ false
          | some patched ↦ elim (from_str patched) [
            | none ↦ false
            | some v ↦ elim (from_str edited) [ none ↦ false | some w ↦ value_eq v w ]
          ]
        ]

  unfoldable pub operation_comment : GeneratedJsonPatchOperation → Str
  operation_comment (add path value) =
      codes "\n            // - add " ++ (path ++ (codes " = " ++ value))
  operation_comment (remove path) = codes "\n            // - remove " ++ path
  operation_comment (GeneratedJsonPatchOperation.replace path value) =
      codes "\n            // - replace " ++ (path ++ (codes " = " ++ value))
  operation_comment (GeneratedJsonPatchOperation.move from path) =
      codes "\n            // - move " ++ (from ++ (codes " -> " ++ path))

  unfoldable pub operation_comments : List GeneratedJsonPatchOperation → Str
  unfolding operation_comment
  operation_comments [] = []
  operation_comments (operation ∷ operations) =
      operation_comment operation ++ operation_comments operations

  unfoldable pub line_comments : List Str → Str
  line_comments [] = []
  line_comments (line ∷ rest) = codes "\n            // " ++ (line ++ line_comments rest)

  -- What `write_json_patch_comments` adds to the text.
  unfoldable pub json_patch_comments : List GeneratedJsonPatchOperation → Str
  unfolding operation_comments line_comments lines json_patch_operations_to_rfc6902_json
  json_patch_comments operations =
      codes "\n            // JSON patch operations:"
      ++ (operation_comments operations
          ++ (codes "\n            // RFC6902 JSON Patch:"
              ++ line_comments (lines (json_patch_operations_to_rfc6902_json operations))))
