-- ===== src/Editor/Semantic.antt =====
-- src/filters/editor.rs, `EditableHttpMessage::semantic_diff` and the functions under it. What the
-- functions push to the events is their result here. serde_json is the parameters `from_str`, `to_string`.
pub mod Agreement
use inspect.Common.{
  ℕ, Bool, true, false, not, ◌&&◌, ◌==◌, Option, none, some, List, [], ◌∷◌, ◌++◌, Str, str_eq,
  option_str_eq, to_ascii_lowercase, decimal, is_some, or_else, unwrap_or, if◌then◌else◌,
}
use inspect.Diff.{
  DiffEvent, DiffNode, DiffPathSegment, DiffSource, BodyDiffSource, insert, delete, replace,
  path_of, header_path, body_path, http_meta, url,
}
use inspect.Json.{Value}
use inspect.Json.Compare.{
  push_json_body_diff_events, push_json_body_insert_event, push_json_body_delete_event,
}
use inspect.Editor.{
  EditableHttpMessage, EditableHttpHeader, EditableHttpBody, text, binary, empty, find_header,
}
use inspect.Editor.Changes.{option_ℕ_eq}

-- A value that is missing on one side is inserted or deleted.
abbrev pub replaced_option :
    DiffPathSegment → Option DiffNode → Option DiffNode → DiffSource → List DiffEvent
replaced_option at none none source = []
replaced_option at (some old) none source = delete (path_of at) old source ∷ []
replaced_option at none (some new) source = insert (path_of at) new source ∷ []
replaced_option at (some old) (some new) source = replace (path_of at) old new source ∷ []

abbrev pub string_node : Option Str → Option DiffNode
string_node none = none
string_node (some s) = some (DiffNode.string s)

abbrev pub number_node : Option ℕ → Option DiffNode
number_node none = none
number_node (some n) = some (DiffNode.number (decimal n))

unfoldable pub push_optional_string_replace :
    DiffPathSegment → Option Str → Option Str → DiffSource → List DiffEvent
unfolding option_str_eq
push_optional_string_replace at old new source =
    if option_str_eq old new
    then []
    else replaced_option at (string_node old) (string_node new) source

unfoldable pub push_string_replace : DiffPathSegment → Str → Str → DiffSource → List DiffEvent
unfolding str_eq
push_string_replace at old new source =
    if str_eq old new
    then []
    else replace (path_of at) (DiffNode.string old) (DiffNode.string new) source ∷ []

unfoldable pub push_status_replace : Option ℕ → Option ℕ → List DiffEvent
unfolding option_ℕ_eq
push_status_replace old new =
    if option_ℕ_eq old new
    then []
    else replaced_option DiffPathSegment.status (number_node old) (number_node new) http_meta

abbrev pub header_node : EditableHttpHeader → DiffNode
header_node header = DiffNode.header header.name header.value

abbrev pub header_at : EditableHttpHeader → DiffPathSegment
header_at header = DiffPathSegment.header (to_ascii_lowercase header.name)

-- The two loops of `push_header_diff_events`.
unfoldable pub original_header_event :
    EditableHttpHeader → Option EditableHttpHeader → List DiffEvent
unfolding str_eq
original_header_event original none =
    delete (path_of (header_at original)) (header_node original) DiffSource.header ∷ []
original_header_event original (some edited) =
    if str_eq edited.value original.value
    then []
    else replace (path_of (header_at original)) (header_node original) (header_node edited)
        DiffSource.header
      ∷ []

unfoldable pub original_header_events :
    List EditableHttpHeader → List EditableHttpHeader → List DiffEvent
unfolding original_header_event find_header
original_header_events [] edited = []
original_header_events (header ∷ headers) edited =
    original_header_event header (find_header edited header.name)
    ++ original_header_events headers edited

unfoldable pub edited_header_events :
    List EditableHttpHeader → List EditableHttpHeader → List DiffEvent
unfolding find_header
edited_header_events original [] = []
edited_header_events original (header ∷ headers) =
    let rest = edited_header_events original headers in
    if is_some (find_header original header.name)
    then rest
    else insert (path_of (header_at header)) (header_node header) DiffSource.header ∷ rest

unfoldable pub push_header_diff_events :
    List EditableHttpHeader → List EditableHttpHeader → List DiffEvent
unfolding original_header_events edited_header_events
push_header_diff_events original edited =
    original_header_events original edited ++ edited_header_events original edited

unfoldable pub body_eq : EditableHttpBody → EditableHttpBody → Bool
unfolding str_eq option_str_eq
body_eq (text a c) (text b d) = str_eq a b && option_str_eq c d
body_eq (binary a c) (binary b d) = a == b && option_str_eq c d
body_eq empty empty = true
body_eq _ _ = false

unfoldable pub body_to_diff_node : EditableHttpBody → DiffNode
body_to_diff_node (text content content_type) = DiffNode.text content
body_to_diff_node (binary bytes_len content_type) = DiffNode.binary bytes_len content_type
body_to_diff_node empty = DiffNode.null

abbrev pub text_source : DiffSource
text_source = DiffSource.body BodyDiffSource.text

abbrev pub binary_source : DiffSource
binary_source = DiffSource.body BodyDiffSource.binary

module _ (from_str : Str → Option Value) (to_string : Value → Str) where
  -- The `match` of `push_body_diff_events`, for bodies that differ.
  unfoldable pub different_body_events : EditableHttpBody → EditableHttpBody → List DiffEvent
  unfolding push_json_body_diff_events push_json_body_insert_event push_json_body_delete_event
      body_to_diff_node body_path
  different_body_events (text old kind) (text new kind') =
      unwrap_or (push_json_body_diff_events from_str to_string old new (or_else kind kind'))
        (replace body_path (DiffNode.text old) (DiffNode.text new) text_source ∷ [])
  different_body_events empty (text new kind) =
      unwrap_or (push_json_body_insert_event from_str to_string new kind)
        (insert body_path (DiffNode.text new) text_source ∷ [])
  different_body_events (text old kind) empty =
      unwrap_or (push_json_body_delete_event from_str to_string old kind)
        (delete body_path (DiffNode.text old) text_source ∷ [])
  different_body_events (binary len kind) empty =
      delete body_path (DiffNode.binary len kind) binary_source ∷ []
  different_body_events empty (binary len kind) =
      insert body_path (DiffNode.binary len kind) binary_source ∷ []
  different_body_events empty empty = []
  different_body_events (text old kind) (binary len kind') =
      replace body_path (DiffNode.text old) (DiffNode.binary len kind') binary_source ∷ []
  different_body_events (binary len kind) edited =
      replace body_path (DiffNode.binary len kind) (body_to_diff_node edited) binary_source ∷ []

  unfoldable pub push_body_diff_events : EditableHttpBody → EditableHttpBody → List DiffEvent
  unfolding body_eq different_body_events
  push_body_diff_events original edited =
      if body_eq original edited then [] else different_body_events original edited

  unfoldable pub semantic_diff : EditableHttpMessage → EditableHttpMessage → List DiffEvent
  unfolding push_optional_string_replace push_string_replace push_status_replace
      push_header_diff_events push_body_diff_events
  semantic_diff original edited =
      push_optional_string_replace DiffPathSegment.method original.method edited.method http_meta
      ++ (push_optional_string_replace DiffPathSegment.scheme original.scheme edited.scheme
            http_meta
          ++ (push_string_replace DiffPathSegment.host original.host edited.host url
              ++ (push_string_replace DiffPathSegment.path original.path edited.path url
                  ++ (push_string_replace DiffPathSegment.query original.query edited.query url
                      ++ (push_status_replace original.status edited.status
                          ++ (push_header_diff_events original.headers edited.headers
                              ++ push_body_diff_events original.body edited.body))))))
