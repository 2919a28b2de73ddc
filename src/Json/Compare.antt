-- ===== src/Json/Compare.antt =====
-- src/filters/engine/json/capture.rs, the comparison of two JSON bodies. The reader and the writer of
-- serde_json are parameters: `from_str` is none for a text that is no JSON.
pub mod Paths
pub mod Equal
pub mod Complete
pub mod Keys
pub mod Telling
pub mod Truth
use inspect.Common.{
  ℕ, ◌+◌, Bool, true, false, not, ◌&&◌, ◌||◌, Option, none, some, List, [], ◌∷◌, ◌++◌, Str, codes,
  str_eq, starts_with, to_ascii_lowercase, trim, trim_start, trim_end, is_some, length, drop, ◌-◌,
  leb, if◌then◌else◌,
}
use inspect.Diff.{
  DiffEvent, DiffNode, DiffPath, DiffPathSegment, DiffSource, BodyDiffSource, insert, delete,
  replace, body_json, body_path, json_key, json_index,
}
use inspect.Filter.Encoding.{before_first}
use inspect.Json.{
  Value, Items, Fields, null, bool, number, string, array, object, nil, item, end, field, get_field,
  value_eq,
}

abbrev pub json_source : DiffSource
json_source = DiffSource.body BodyDiffSource.json

-- `content_type.ends_with(suffix)`.
unfoldable pub ends_with : Str → Str → Bool
ends_with suffix s =
    leb (length suffix) (length s) && str_eq (drop (length s - length suffix) s) suffix

unfoldable pub json_content_type : Str → Bool
unfolding ends_with before_first
json_content_type content_type =
    let essence = to_ascii_lowercase (trim (before_first b';' content_type)) in
    str_eq essence (codes "application/json")
    || ends_with (codes "+json") essence
    || str_eq essence (codes "text/json")

abbrev pub is_some_and : (Str → Bool) → Option Str → Bool
is_some_and test none = false
is_some_and test (some s) = test s

unfoldable pub looks_like_json : Option Str → Str → Bool
unfolding json_content_type
looks_like_json content_type content =
    is_some_and json_content_type content_type
    || starts_with (codes "{") (trim_start content)
    || starts_with (codes "[") (trim_start content)

module _ (to_string : Value → Str) where
  unfoldable pub json_value_to_diff_node : Value → DiffNode
  json_value_to_diff_node null = DiffNode.null
  json_value_to_diff_node (bool b) = DiffNode.bool b
  json_value_to_diff_node (number n) = DiffNode.number n
  json_value_to_diff_node (string s) = DiffNode.string s
  json_value_to_diff_node (array items) = DiffNode.json (to_string (array items))
  json_value_to_diff_node (object fields) = DiffNode.json (to_string (object fields))

  abbrev pub deleted : List DiffPathSegment → Value → DiffEvent
  deleted at v = delete (body_json at) (json_value_to_diff_node v) json_source

  abbrev pub inserted : List DiffPathSegment → Value → DiffEvent
  inserted at v = insert (body_json at) (json_value_to_diff_node v) json_source

  abbrev pub replaced : List DiffPathSegment → Value → Value → DiffEvent
  replaced at v w =
      replace (body_json at) (json_value_to_diff_node v) (json_value_to_diff_node w) json_source

  -- The loops over the items behind the common ones, `idx` the index of the first.
  unfoldable pub deleted_items : List DiffPathSegment → ℕ → Items → List DiffEvent
  deleted_items at idx nil = []
  deleted_items at idx (item v items) =
      deleted (at ++ (json_index idx ∷ [])) v ∷ deleted_items at (idx + 1) items

  unfoldable pub inserted_items : List DiffPathSegment → ℕ → Items → List DiffEvent
  inserted_items at idx nil = []
  inserted_items at idx (item v items) =
      inserted (at ++ (json_index idx ∷ [])) v ∷ inserted_items at (idx + 1) items

  -- The loop over the edited entries: those whose key the original has not.
  unfoldable pub inserted_fields : List DiffPathSegment → Fields → Fields → List DiffEvent
  inserted_fields at original end = []
  inserted_fields at original (field key v edited) =
      (if is_some (get_field key original) then [] else inserted (at ++ (json_key key ∷ [])) v ∷ [])
      ++ inserted_fields at original edited

  -- The branch of two values of which one is no container, or that are of different kinds, is a single
  -- replacement.
  unfoldable mutual
    unfolding value_eq

    pub diff_json_value : List DiffPathSegment → Value → Value → List DiffEvent
    diff_json_value at (object original) edited =
        let differences : List DiffEvent = elim edited [
          | object entries ↦ diff_fields at original entries ++ inserted_fields at original entries
          | other ↦ replaced at (object original) other ∷ []
        ] in
        if value_eq (object original) edited then [] else differences
    diff_json_value at (array original) edited =
        let differences : List DiffEvent = elim edited [
          | array items ↦ diff_items at 0 original items
          | other ↦ replaced at (array original) other ∷ []
        ] in
        if value_eq (array original) edited then [] else differences
    diff_json_value at original edited =
        if value_eq original edited then [] else replaced at original edited ∷ []

    pub diff_fields : List DiffPathSegment → Fields → Fields → List DiffEvent
    diff_fields at end edited = []
    diff_fields at (field key v original) edited =
        let next = at ++ (json_key key ∷ []) in
        let here : List DiffEvent = elim (get_field key edited) [
          | none ↦ deleted next v ∷ []
          | some w ↦ diff_json_value next v w
        ] in
        here ++ diff_fields at original edited

    pub diff_items : List DiffPathSegment → ℕ → Items → Items → List DiffEvent
    diff_items at idx nil edited = inserted_items at idx edited
    diff_items at idx (item v original) nil = deleted_items at idx (item v original)
    diff_items at idx (item v original) (item w edited) =
        diff_json_value (at ++ (json_index idx ∷ [])) v w ++ diff_items at (idx + 1) original edited

module _ (from_str : Str → Option Value) (to_string : Value → Str) where
  -- What the comparison adds to the events; none if it does not take the bodies as JSON.
  unfoldable pub push_json_body_diff_events : Str → Str → Option Str → Option (List DiffEvent)
  unfolding diff_json_value looks_like_json
  push_json_body_diff_events original edited content_type =
      if not (looks_like_json content_type original) && not (looks_like_json content_type edited)
      then none
      else elim (from_str original) [
        | none ↦ none
        | some v ↦ elim (from_str edited) [
          | none ↦ none
          | some w ↦ some (diff_json_value to_string [] v w)
        ]
      ]

  unfoldable pub push_json_body_insert_event : Str → Option Str → Option (List DiffEvent)
  push_json_body_insert_event content content_type =
      if looks_like_json content_type content
      then elim (from_str content) [
        | none ↦ none
        | some v ↦ some (insert body_path (json_value_to_diff_node to_string v) json_source ∷ [])
      ]
      else none

  unfoldable pub push_json_body_delete_event : Str → Option Str → Option (List DiffEvent)
  push_json_body_delete_event content content_type =
      if looks_like_json content_type content
      then elim (from_str content) [
        | none ↦ none
        | some v ↦ some (delete body_path (json_value_to_diff_node to_string v) json_source ∷ [])
      ]
      else none
