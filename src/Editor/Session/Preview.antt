-- ===== src/Editor/Session/Preview.antt =====
-- src/filters/editor.rs, `EditableFilterSession`: the filter that a session makes, its preview, and the texts
-- of the errors.
use inspect.Common.{
  ℕ, true, false, not, Option, none, some, List, [], ◌∷◌, ◌++◌, Str, codes, is_empty, if◌then◌else◌,
  Result, ok, err, ◌>>=◌,
}
use inspect.Diff.{DiffEvent, event_summary}
use inspect.Json.Patch.{JsonLib}
use inspect.Semantic.{BodyLanguage, BodyRewriteIntent, TextReplacement}
use inspect.Generator.{GeneratedFilter}
use inspect.Generator.Script.{to_roto_source}
use inspect.Editor.{EditableHttpMessageKind, EditableHttpMessage, request, response}
use inspect.Editor.Parse.{
  EditableHttpMessageParseError, parse_edit_text, invalid_meta_line, invalid_kind, invalid_status,
  unknown_meta_key, invalid_header_line, empty_header_name,
}
use inspect.Editor.Changes.{diff, has_changes, format_editable_diff}
use inspect.Editor.Semantic.{semantic_diff}
use inspect.Editor.Generate.{is_request, is_response}
use inspect.Editor.Generate.Extract.{
  extract_request_filter_from_edit, extract_response_filter_from_edit,
}
use inspect.Editor.Session.{
  EditableFilterSession, of_request, of_response, EditableFilterSessionPreview,
  EditableFilterSessionError, parse, no_changes, wrong_message_kind, missing_response_status, save,
  original_of, or_session_error, edited_message, ok_or_no_changes,
}

-- `Display` of the errors.
abbrev pub kind_text : EditableHttpMessageKind → Str
kind_text request = codes "Request"
kind_text response = codes "Response"

module _ (debug : Str → Str) where
  unfoldable pub parse_error_text : EditableHttpMessageParseError → Str
  parse_error_text (invalid_meta_line line) = codes "invalid meta line: " ++ debug line
  parse_error_text (invalid_kind value) = codes "invalid kind: " ++ debug value
  parse_error_text (invalid_status value) = codes "invalid status: " ++ debug value
  parse_error_text (unknown_meta_key key) = codes "unknown meta key: " ++ debug key
  parse_error_text (invalid_header_line line) = codes "invalid header line: " ++ debug line
  parse_error_text empty_header_name = codes "header name must not be empty"

  unfoldable pub session_error_text : EditableFilterSessionError → Str
  unfolding parse_error_text
  session_error_text (parse e) =
      codes "failed to parse editable filter session: " ++ parse_error_text e
  session_error_text no_changes = codes "editable filter session has no changes"
  session_error_text (wrong_message_kind expected actual) =
      codes "editable filter session kind mismatch: expected "
      ++ (kind_text expected ++ (codes ", got " ++ kind_text actual))
  session_error_text missing_response_status = codes "editable response is missing status"
  session_error_text (save e) = codes "failed to save generated filter: " ++ e

  unfoldable pub summary_lines : List DiffEvent → Str
  unfolding event_summary
  summary_lines [] = []
  summary_lines (event ∷ events) =
      codes "  " ++ (event_summary debug event ++ (codes "\n" ++ summary_lines events))

  unfoldable pub semantic_text : List DiffEvent → Str
  unfolding summary_lines
  semantic_text events =
      if is_empty events then [] else codes "\nSemantic diff:\n" ++ summary_lines events

-- `to_panel_text`.
unfoldable pub to_panel_text : EditableFilterSessionPreview → Str
to_panel_text preview =
    (elim preview.error [ none ↦ [] | some e ↦ codes "Error:\n  " ++ (e ++ codes "\n\n") ])
    ++ (preview.changes_text ++ (elim preview.generated_roto [
      | none ↦ []
      | some script ↦ codes "\nGenerated Roto:\n" ++ script
    ]))

module _ (lib : JsonLib)
    (syntax_anchor : BodyLanguage → Str → TextReplacement → Option BodyRewriteIntent)
    (to_lowercase : ℕ → Str) (debug : Str → Str) (uuid : Str) where
  open lib use {from_str, to_string}

  unfoldable pub request_session_filter :
      Str
      → EditableHttpMessage
      → EditableHttpMessage
      → Result EditableFilterSessionError GeneratedFilter
  unfolding extract_request_filter_from_edit ok_or_no_changes
  request_session_filter name original edited =
      if is_request edited.kind
      then ok_or_no_changes (
          extract_request_filter_from_edit lib syntax_anchor to_lowercase debug uuid name original
            edited)
      else err (wrong_message_kind request edited.kind)

  unfoldable pub response_session_filter :
      Str
      → EditableHttpMessage
      → EditableHttpMessage
      → EditableHttpMessage
      → Result EditableFilterSessionError GeneratedFilter
  unfolding extract_response_filter_from_edit ok_or_no_changes
  response_session_filter name request_context original edited =
      if not (is_response edited.kind)
      then err (wrong_message_kind response edited.kind)
      else elim edited.status [
        | none ↦ err missing_response_status
        | some status ↦ ok_or_no_changes (
            extract_response_filter_from_edit lib syntax_anchor to_lowercase debug uuid name
              request_context original edited)
      ]

  unfoldable pub generate_filter :
      EditableFilterSession → Result EditableFilterSessionError GeneratedFilter
  unfolding or_session_error parse_edit_text request_session_filter response_session_filter
  generate_filter (of_request name original edited_text) =
      or_session_error (parse_edit_text edited_text (some original))
      >>= request_session_filter name original
  generate_filter (of_response name request_context original edited_text) =
      or_session_error (parse_edit_text edited_text (some original))
      >>= response_session_filter name request_context original

  abbrev pub failed_preview : EditableFilterSessionError → EditableFilterSessionPreview
  failed_preview e = record {
    has_changes = false;
    changes_text = [];
    generated_roto = none;
    error = some (session_error_text debug e);
  }

  unfoldable pub generated_preview :
      Str → Result EditableFilterSessionError GeneratedFilter → EditableFilterSessionPreview
  unfolding session_error_text to_roto_source
  generated_preview changes_text (ok filter) = record {
    has_changes = true;
    changes_text = changes_text;
    generated_roto = some (to_roto_source lib filter);
    error = none;
  }
  generated_preview changes_text (err e) = record {
    has_changes = true;
    changes_text = changes_text;
    generated_roto = none;
    error = some (session_error_text debug e);
  }

  unfoldable pub preview_of :
      EditableFilterSession → EditableHttpMessage → EditableFilterSessionPreview
  unfolding diff has_changes format_editable_diff semantic_diff semantic_text generate_filter
      generated_preview original_of
  preview_of session edited =
      let changes = diff (original_of session) edited in
      let events = semantic_diff from_str to_string (original_of session) edited in
      let changes_text = format_editable_diff changes ++ semantic_text debug events in
      if not (has_changes changes)
      then record {
        has_changes = false;
        changes_text = changes_text;
        generated_roto = none;
        error = none;
      }
      else generated_preview changes_text (generate_filter session)

  unfoldable pub preview : EditableFilterSession → EditableFilterSessionPreview
  unfolding edited_message preview_of session_error_text
  preview session = elim (edited_message session) [
    | err e ↦ failed_preview e
    | ok edited ↦ preview_of session edited
  ]
