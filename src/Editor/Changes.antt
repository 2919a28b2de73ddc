-- ===== src/Editor/Changes.antt =====
-- src/filters/editor.rs, `EditableHttpMessage::diff` and what is made of its result.
pub mod Unchanged
pub mod Actions
use Prim.Native.String.{String}
use inspect.Common.{
  ℕ, Bool, true, false, not, ◌||◌, ◌==◌, Option, none, some, List, [], ◌∷◌, ◌++◌, map, Str, codes,
  str_eq, option_str_eq, is_empty, is_some, unwrap_or, if◌then◌else◌,
}
use inspect.Editor.{
  EditableHttpMessageKind, EditableHttpMessage, EditableHttpHeader, EditableHttpBody, request,
  response, body_text, body_content_type, header_value,
}
use inspect.Generator.{
  GeneratedFilterAction, set_request_header, remove_request_header, set_response_header,
  remove_response_header,
}
use inspect.Generator.Rewrite.{GeneratedRewriteRequestInput, GeneratedRewriteResponseInput}

pub record EditableHeaderChange : Type 0 where
  pub name : Str
  pub original_value : Str
  pub edited_value : Str

pub record EditableHttpMessageDiff : Type 0 where
  pub kind : EditableHttpMessageKind
  pub method_changed : Bool
  pub host_changed : Bool
  pub path_changed : Bool
  pub query_changed : Bool
  pub status_changed : Bool
  pub added_headers : List EditableHttpHeader
  pub removed_headers : List EditableHttpHeader
  pub changed_headers : List EditableHeaderChange
  pub body_changed : Bool

unfoldable pub option_ℕ_eq : Option ℕ → Option ℕ → Bool
option_ℕ_eq none none = true
option_ℕ_eq (some a) (some b) = a == b
option_ℕ_eq _ _ = false

-- The headers of the list whose name the other message has not.
unfoldable pub missing_headers :
    EditableHttpMessage → List EditableHttpHeader → List EditableHttpHeader
unfolding header_value
missing_headers other [] = []
missing_headers other (header ∷ headers) =
    let rest = missing_headers other headers in
    if is_some (header_value other header.name) then rest else header ∷ rest

-- A header of the original against the value that the edited message has for its name.
unfoldable pub header_change : EditableHttpHeader → Option Str → List EditableHeaderChange
unfolding str_eq
header_change header none = []
header_change header (some edited_value) =
    if str_eq header.value edited_value
    then []
    else record { name = header.name; original_value = header.value; edited_value = edited_value }
      ∷ []

unfoldable pub changed_headers_of :
    EditableHttpMessage → List EditableHttpHeader → List EditableHeaderChange
unfolding header_change header_value
changed_headers_of edited [] = []
changed_headers_of edited (header ∷ headers) =
    header_change header (header_value edited header.name) ++ changed_headers_of edited headers

unfoldable pub diff : EditableHttpMessage → EditableHttpMessage → EditableHttpMessageDiff
unfolding missing_headers changed_headers_of str_eq option_str_eq option_ℕ_eq body_text
diff original edited = record {
  kind = original.kind;
  method_changed = not (option_str_eq original.method edited.method);
  host_changed = not (str_eq original.host edited.host);
  path_changed = not (str_eq original.path edited.path);
  query_changed = not (str_eq original.query edited.query);
  status_changed = not (option_ℕ_eq original.status edited.status);
  added_headers = missing_headers original edited.headers;
  removed_headers = missing_headers edited original.headers;
  changed_headers = changed_headers_of edited original.headers;
  body_changed = not (option_str_eq (body_text original) (body_text edited));
}

unfoldable pub has_changes : EditableHttpMessageDiff → Bool
has_changes d =
    d.method_changed
    || d.host_changed
    || d.path_changed
    || d.query_changed
    || d.status_changed
    || not (is_empty d.added_headers)
    || not (is_empty d.removed_headers)
    || not (is_empty d.changed_headers)
    || d.body_changed

abbrev pub remove_action : EditableHttpMessageKind → EditableHttpHeader → GeneratedFilterAction
remove_action request header = remove_request_header header.name
remove_action response header = remove_response_header header.name

abbrev pub change_action : EditableHttpMessageKind → EditableHeaderChange → GeneratedFilterAction
change_action request change = set_request_header change.name change.edited_value
change_action response change = set_response_header change.name change.edited_value

abbrev pub add_header_action : EditableHttpMessageKind → EditableHttpHeader → GeneratedFilterAction
add_header_action request header = set_request_header header.name header.value
add_header_action response header = set_response_header header.name header.value

unfoldable pub header_actions : EditableHttpMessageDiff → List GeneratedFilterAction
header_actions d =
    map (remove_action d.kind) d.removed_headers
    ++ (map (change_action d.kind) d.changed_headers
        ++ map (add_header_action d.kind) d.added_headers)

unfoldable pub to_request_input : EditableHttpMessage → GeneratedRewriteRequestInput
unfolding body_text
to_request_input m = record {
  host = m.host;
  method = unwrap_or m.method (codes "GET");
  path = m.path;
  query = m.query;
  body_text = body_text m;
}

unfoldable pub to_response_input : EditableHttpMessage → Option GeneratedRewriteResponseInput
unfolding body_text body_content_type
to_response_input m = elim m.status [
  | none ↦ none
  | some status ↦
      some (record { status = status; content_type = body_content_type m; body_text = body_text m })
]

-- `format_editable_diff`.
abbrev pub line_if : Bool → String → Str
line_if test s = if test then codes s else []

unfoldable pub removed_lines : List EditableHttpHeader → Str
removed_lines [] = []
removed_lines (header ∷ headers) =
    codes "  removed header "
    ++ (header.name ++ (codes ": " ++ (header.value ++ (codes "\n" ++ removed_lines headers))))

unfoldable pub added_lines : List EditableHttpHeader → Str
added_lines [] = []
added_lines (header ∷ headers) =
    codes "  added header "
    ++ (header.name ++ (codes ": " ++ (header.value ++ (codes "\n" ++ added_lines headers))))

unfoldable pub changed_lines : List EditableHeaderChange → Str
changed_lines [] = []
changed_lines (change ∷ changes) =
    codes "  header "
    ++ (change.name
        ++ (codes ": "
            ++ (change.original_value
                ++ (codes " -> "
                    ++ (change.edited_value ++ (codes "\n" ++ changed_lines changes))))))

unfoldable pub format_editable_diff : EditableHttpMessageDiff → Str
unfolding has_changes removed_lines added_lines changed_lines
format_editable_diff d =
    codes "Changes:\n"
    ++ (if not (has_changes d)
        then codes "  none\n"
        else line_if d.method_changed "  method changed\n"
          ++ (line_if d.host_changed "  host changed\n"
              ++ (line_if d.path_changed "  path changed\n"
                  ++ (line_if d.query_changed "  query changed\n"
                      ++ (line_if d.status_changed "  status changed\n"
                          ++ (removed_lines d.removed_headers
                              ++ (changed_lines d.changed_headers
                                  ++ (added_lines d.added_headers
                                      ++ line_if d.body_changed "  body changed\n"))))))))
