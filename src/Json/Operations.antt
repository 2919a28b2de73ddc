-- ===== src/Json/Operations.antt =====
-- src/filters/engine/json/capture.rs, how the events of a comparison become patch operations.
pub mod Pointer
use inspect.Common.{
  Bool, true, false, ◌&&◌, Option, none, some, List, [], ◌∷◌, ◌++◌, map, Str, codes, decimal,
  str_eq, lines, unwrap_or, if◌then◌else◌,
}
use inspect.Diff.{
  DiffEvent, DiffNode, DiffPath, DiffPathSegment, DiffSource, BodyDiffSource, insert, delete,
  json_key, json_index, replace_char, event_source,
}
use inspect.Json.{
  Value, Items, Fields, null, bool, number, string, array, object, nil, item, end, field, get_field,
  get_key, as_str, value_eq,
}
use inspect.Json.Patch.{GeneratedJsonPatchOperation, add, remove, JsonLib, one_more}

unfoldable pub escape_json_pointer_segment : Str → Str
unfolding replace_char
escape_json_pointer_segment segment =
    replace_char b'/' (codes "~1") (replace_char b'~' (codes "~0") segment)

-- The loop of `json_pointer_from_diff_path`, once the body is seen.
unfoldable pub pointer_behind_body : List DiffPathSegment → Str
unfolding escape_json_pointer_segment
pointer_behind_body [] = []
pointer_behind_body (json_key key ∷ at) =
    b'/' ∷ (escape_json_pointer_segment key ++ pointer_behind_body at)
pointer_behind_body (json_index index ∷ at) = b'/' ∷ (decimal index ++ pointer_behind_body at)
pointer_behind_body (segment ∷ at) = pointer_behind_body at

unfoldable pub pointer_from_segments : List DiffPathSegment → Option Str
unfolding pointer_behind_body
pointer_from_segments [] = none
pointer_from_segments (DiffPathSegment.body ∷ at) = some (pointer_behind_body at)
pointer_from_segments (segment ∷ at) = pointer_from_segments at

unfoldable pub json_pointer_from_diff_path : DiffPath → Option Str
unfolding pointer_from_segments
json_pointer_from_diff_path at = pointer_from_segments at.segments

abbrev pub is_json_source : DiffSource → Bool
is_json_source (DiffSource.body BodyDiffSource.json) = true
is_json_source _ = false

abbrev pub string_or_null : Option Str → Value
string_or_null none = null
string_or_null (some s) = string s

module _ (lib : JsonLib) where
  open lib use {from_str, to_string}

  -- The value of a node, as JSON.
  unfoldable pub diff_node_to_json_patch_value : DiffNode → Str
  diff_node_to_json_patch_value DiffNode.null = codes "null"
  diff_node_to_json_patch_value (DiffNode.bool true) = codes "true"
  diff_node_to_json_patch_value (DiffNode.bool false) = codes "false"
  diff_node_to_json_patch_value (DiffNode.number value) = value
  diff_node_to_json_patch_value (DiffNode.string value) = to_string (string value)
  diff_node_to_json_patch_value (DiffNode.text value) = to_string (string value)
  diff_node_to_json_patch_value (DiffNode.json raw) = elim (from_str raw) [
    | some v ↦ to_string v
    | none ↦ to_string (string raw)
  ]
  diff_node_to_json_patch_value (DiffNode.xml name content) =
      to_string
        (object (one_more "name" (string_or_null name) (one_more "text" (string content) end)))
  diff_node_to_json_patch_value (DiffNode.html tag content) =
      to_string
        (object (one_more "tag" (string_or_null tag) (one_more "text" (string content) end)))
  diff_node_to_json_patch_value (DiffNode.ast kind content) =
      to_string (object (one_more "kind" (string kind) (one_more "text" (string content) end)))
  diff_node_to_json_patch_value (DiffNode.bytes_len len) = decimal len
  diff_node_to_json_patch_value (DiffNode.header name value) =
      to_string (object (one_more "name" (string name) (one_more "value" (string value) end)))
  diff_node_to_json_patch_value (DiffNode.cookie name value) =
      to_string (object (one_more "name" (string name) (one_more "value" (string value) end)))
  diff_node_to_json_patch_value (DiffNode.binary len content_type) = to_string (
      object (
        one_more "bytes_len" (number (decimal len))
          (one_more "content_type" (string_or_null content_type) end)))

  abbrev pub on_pointer :
      DiffPath → (Str → Option GeneratedJsonPatchOperation) → Option GeneratedJsonPatchOperation
  on_pointer at next = elim (json_pointer_from_diff_path at) [ none ↦ none | some s ↦ next s ]

  unfoldable pub operation_of_event : DiffEvent → Option GeneratedJsonPatchOperation
  unfolding json_pointer_from_diff_path diff_node_to_json_patch_value
  operation_of_event (insert at node source) =
      on_pointer at (λ path. some (add path (diff_node_to_json_patch_value node)))
  operation_of_event (delete at old source) = on_pointer at (λ path. some (remove path))
  operation_of_event (DiffEvent.replace at old new source) =
      on_pointer at (λ path.
        some (GeneratedJsonPatchOperation.replace path (diff_node_to_json_patch_value new)))
  operation_of_event (DiffEvent.move from to node source) =
      on_pointer from
        (λ origin. on_pointer to (λ path. some (GeneratedJsonPatchOperation.move origin path)))

  unfoldable pub json_patch_operation_from_diff_event :
      DiffEvent → Option GeneratedJsonPatchOperation
  unfolding operation_of_event event_source
  json_patch_operation_from_diff_event event =
      if is_json_source (event_source event) then operation_of_event event else none

  unfoldable pub json_patch_operations_from_diff_events :
      List DiffEvent → List GeneratedJsonPatchOperation
  unfolding json_patch_operation_from_diff_event
  json_patch_operations_from_diff_events [] = []
  json_patch_operations_from_diff_events (event ∷ events) =
      elim (json_patch_operation_from_diff_event event) [
        | none ↦ json_patch_operations_from_diff_events events
        | some operation ↦ operation ∷ json_patch_operations_from_diff_events events
      ]
