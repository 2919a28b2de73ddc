-- ===== src/Editor/Session.antt =====
-- src/filters/editor.rs, `EditableFilterSession`, but for `save_generated`, which writes a file. The
-- operations that take `&mut self` return the new session. The parameters are those of the filters that are
-- made of an edited message.
pub mod Preview
pub mod Lifecycle
pub mod Outcomes
pub mod Shown
pub mod Agreement
use inspect.Common.{
  ℕ, Bool, true, false, not, ◌&&◌, ◌||◌, Option, none, some, List, [], ◌∷◌, ◌++◌, Str, codes,
  is_empty, if◌then◌else◌, Result, ok, err, ◌>>=◌,
}
use inspect.Filter.Types.{FilterRequest, FilterResponse}
use inspect.Diff.{DiffEvent, event_summary}
use inspect.Json.Patch.{JsonLib}
use inspect.Semantic.{BodyLanguage, BodyRewriteIntent, TextReplacement}
use inspect.Generator.{GeneratedFilter}
use inspect.Generator.Script.{to_roto_source}
use inspect.Editor.{
  EditableHttpMessageKind, EditableHttpMessage, request, response, from_filter_request,
  from_filter_response,
}
use inspect.Editor.Print.{to_edit_text}
use inspect.Editor.Parse.{
  EditableHttpMessageParseError, parse_edit_text, invalid_meta_line, invalid_kind, invalid_status,
  unknown_meta_key, invalid_header_line, empty_header_name,
}
use inspect.Editor.Changes.{EditableHttpMessageDiff, diff, has_changes, format_editable_diff}
use inspect.Editor.Semantic.{semantic_diff}
use inspect.Editor.Generate.{is_request, is_response}
use inspect.Editor.Generate.Extract.{
  extract_request_filter_from_edit, extract_response_filter_from_edit,
}

pub data EditableFilterSession : Type 0 where
  of_request :
      (name : Str) (original : EditableHttpMessage) (edited_text : Str) → EditableFilterSession
  of_response :
      (name : Str) (request_context original : EditableHttpMessage) (edited_text : Str)
      → EditableFilterSession

pub record EditableFilterSessionPreview : Type 0 where
  pub has_changes : Bool
  pub changes_text : Str
  pub generated_roto : Option Str
  pub error : Option Str

pub data EditableFilterSessionError : Type 0 where
  parse : EditableHttpMessageParseError → EditableFilterSessionError
  no_changes : EditableFilterSessionError
  wrong_message_kind : (expected actual : EditableHttpMessageKind) → EditableFilterSessionError
  missing_response_status : EditableFilterSessionError
  save : Str → EditableFilterSessionError

unfoldable pub of_filter_request : Str → FilterRequest → EditableFilterSession
unfolding from_filter_request to_edit_text
of_filter_request name req =
    let original = from_filter_request req in of_request name original (to_edit_text original)

unfoldable pub of_filter_response : Str → FilterRequest → FilterResponse → EditableFilterSession
unfolding from_filter_request from_filter_response to_edit_text
of_filter_response name req res =
    let original = from_filter_response req res in
    of_response name (from_filter_request req) original (to_edit_text original)

unfoldable pub name_of : EditableFilterSession → Str
name_of (of_request name original edited_text) = name
name_of (of_response name request_context original edited_text) = name

unfoldable pub set_name : EditableFilterSession → Str → EditableFilterSession
set_name (of_request name original edited_text) next = of_request next original edited_text
set_name (of_response name request_context original edited_text) next =
    of_response next request_context original edited_text

unfoldable pub original_of : EditableFilterSession → EditableHttpMessage
original_of (of_request name original edited_text) = original
original_of (of_response name request_context original edited_text) = original

unfoldable pub edited_text_of : EditableFilterSession → Str
edited_text_of (of_request name original edited_text) = edited_text
edited_text_of (of_response name request_context original edited_text) = edited_text

unfoldable pub set_edited_text : EditableFilterSession → Str → EditableFilterSession
set_edited_text (of_request name original edited_text) next = of_request name original next
set_edited_text (of_response name request_context original edited_text) next =
    of_response name request_context original next

unfoldable pub reset : EditableFilterSession → EditableFilterSession
unfolding to_edit_text
reset (of_request name original edited_text) = of_request name original (to_edit_text original)
reset (of_response name request_context original edited_text) =
    of_response name request_context original (to_edit_text original)

-- `?` on a parse error.
unfoldable pub or_session_error :
    Result EditableHttpMessageParseError EditableHttpMessage
    → Result EditableFilterSessionError EditableHttpMessage
or_session_error (err e) = err (parse e)
or_session_error (ok m) = ok m

unfoldable pub edited_message :
    EditableFilterSession → Result EditableFilterSessionError EditableHttpMessage
unfolding or_session_error parse_edit_text original_of edited_text_of
edited_message session =
    or_session_error (parse_edit_text (edited_text_of session) (some (original_of session)))

unfoldable pub session_diff :
    EditableFilterSession → Result EditableFilterSessionError EditableHttpMessageDiff
unfolding edited_message diff original_of
session_diff session = edited_message session >>= λ edited. ok (diff (original_of session) edited)

unfoldable pub session_has_changes : EditableFilterSession → Result EditableFilterSessionError Bool
unfolding session_diff has_changes
session_has_changes session = session_diff session >>= λ changes. ok (has_changes changes)

unfoldable pub ok_or_no_changes :
    Option GeneratedFilter → Result EditableFilterSessionError GeneratedFilter
ok_or_no_changes none = err no_changes
ok_or_no_changes (some filter) = ok filter
