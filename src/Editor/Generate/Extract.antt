-- ===== src/Editor/Generate/Extract.antt =====
-- src/filters/editor.rs, `extract_request_filter_from_edit`, `extract_response_filter_from_edit` and the two
-- functions that make a filter of an edited text.
use inspect.Common.{
  ℕ, Bool, false, not, ◌||◌, Option, none, some, List, Str, codes, is_empty, or_else, unwrap_or,
  if◌then◌else◌, Result, ok, err, ◌>>=◌,
}
use inspect.Filter.Types.{FilterRequest, FilterResponse}
use inspect.Json.Patch.{GeneratedJsonPatchOperation, JsonLib, validate_json_patch_operations}
use inspect.Json.Operations.{json_patch_operations_from_diff_events}
use inspect.Semantic.{
  BodyLanguage, BodyRewriteOperation, BodyRewriteIntent, TextReplacement,
  extract_body_rewrite_intent,
}
use inspect.Generator.{
  GeneratedFilter, GeneratedFilterAction, add_action, add_rewrite_note, extend_actions,
  replace_request_body_rewrite_action, replace_response_body_rewrite_action,
  apply_request_json_patch, apply_response_json_patch,
}
use inspect.Generator.Rewrite.{extract_request, extract_response}
use inspect.Generator.IntoFilter.{into_filter}
use inspect.Editor.{
  EditableHttpMessage, request, response, body_text, body_content_type, from_filter_request,
  from_filter_response,
}
use inspect.Editor.Parse.{EditableHttpMessageParseError, parse_edit_text}
use inspect.Editor.Changes.{
  EditableHttpMessageDiff, diff, has_changes, header_actions, to_request_input, to_response_input,
}
use inspect.Editor.Semantic.{semantic_diff}
use inspect.Editor.Generate.{
  EditedFilterGenerationError, parse, no_changes, wrong_message_kind, missing_response_status,
  is_request, is_response, request_body_action_from_intent, response_body_action_from_intent,
  removes_host, semantic_note, anchor_note,
}

-- `ok_or` on the result of the extraction.
unfoldable pub ok_or_no_changes :
    Option GeneratedFilter → Result EditedFilterGenerationError GeneratedFilter
ok_or_no_changes none = err no_changes
ok_or_no_changes (some filter) = ok filter

-- `?` on a parse error.
unfoldable pub or_parse_error :
    Result EditableHttpMessageParseError EditableHttpMessage
    → Result EditedFilterGenerationError EditableHttpMessage
or_parse_error (err e) = err (parse e)
or_parse_error (ok m) = ok m

unfoldable pub with_header_actions : EditableHttpMessageDiff → GeneratedFilter → GeneratedFilter
unfolding extend_actions header_actions
with_header_actions changes filter = extend_actions filter (header_actions changes)

unfoldable pub with_host_drop : EditableHttpMessageDiff → GeneratedFilter → GeneratedFilter
unfolding removes_host add_action add_rewrite_note
with_host_drop changes filter =
    if removes_host changes.removed_headers
    then add_rewrite_note (add_action filter GeneratedFilterAction.drop)
        (codes "host header removed; auto-added drop() to suppress client response")
    else filter

abbrev pub fell_back_note : Str
fell_back_note = codes "generated JSON patch did not validate; falling back to set_body_text output"

abbrev pub validates : Option Str → (Str → Bool) → Bool
validates none test = false
validates (some body) test = test body

module _ (lib : JsonLib)
    (syntax_anchor : BodyLanguage → Str → TextReplacement → Option BodyRewriteIntent)
    (to_lowercase : ℕ → Str) (debug : Str → Str) (uuid : Str) where
  open lib use {from_str, to_string}

  -- What the functions for requests and for responses do to the body in the same words. They differ in the
  -- actions: `put` replaces the actions that rewrite the body by one, `patch` is the action of a JSON
  -- patch, `action_of` that of an operation.
  module _ (put : GeneratedFilter → GeneratedFilterAction → GeneratedFilter)
      (patch : List GeneratedJsonPatchOperation → Str → Str → GeneratedFilterAction)
      (action_of : BodyRewriteOperation → Option GeneratedFilterAction) (validated_note : Str) where
    unfoldable pub with_json_patch :
        EditableHttpMessage
        → EditableHttpMessage
        → List GeneratedJsonPatchOperation
        → Str
        → GeneratedFilter
        → GeneratedFilter
    unfolding validate_json_patch_operations add_rewrite_note body_text body_content_type
    with_json_patch original edited operations edited_body filter =
        let content_type =
          unwrap_or (body_content_type edited) (codes "application/json; charset=utf-8") in
        let validation_ok =
          validates (body_text original)
            (λ body. validate_json_patch_operations lib body edited_body operations) in
        add_rewrite_note (put filter (patch operations edited_body content_type))
          (if validation_ok then validated_note else fell_back_note)

    unfoldable pub with_intent : BodyRewriteIntent → GeneratedFilter → GeneratedFilter
    unfolding semantic_note anchor_note add_rewrite_note
    with_intent intent filter = elim (action_of intent.operation) [
      | none ↦ filter
      | some action ↦
          anchor_note debug (add_rewrite_note (put filter action) (semantic_note intent))
            intent.anchor
    ]

    unfoldable pub with_semantic_rewrite :
        EditableHttpMessage → EditableHttpMessage → GeneratedFilter → GeneratedFilter
    unfolding with_intent extract_body_rewrite_intent body_text body_content_type
    with_semantic_rewrite original edited filter = elim (body_text original) [
      | none ↦ filter
      | some original_body ↦ elim (body_text edited) [
        | none ↦ filter
        | some edited_body ↦
            let content_type = or_else (body_content_type original) (body_content_type edited) in
            elim (extract_body_rewrite_intent syntax_anchor original_body edited_body
              content_type) [ none ↦ filter | some intent ↦ with_intent intent filter ]
      ]
    ]

    unfoldable pub with_body_rewrite :
        EditableHttpMessage → EditableHttpMessage → GeneratedFilter → GeneratedFilter
    unfolding with_json_patch with_semantic_rewrite semantic_diff body_text
        json_patch_operations_from_diff_events
    with_body_rewrite original edited filter =
        let events = semantic_diff from_str to_string original edited in
        let operations = json_patch_operations_from_diff_events lib events in
        let semantic = with_semantic_rewrite original edited filter in
        if is_empty operations then semantic else (elim (body_text edited) [
          | none ↦ semantic
          | some edited_body ↦ with_json_patch original edited operations edited_body filter
        ])

  unfoldable pub extract_request_filter_from_edit :
      Str → EditableHttpMessage → EditableHttpMessage → Option GeneratedFilter
  unfolding diff has_changes into_filter extract_request to_request_input with_header_actions
      with_host_drop with_body_rewrite replace_request_body_rewrite_action
      request_body_action_from_intent
  extract_request_filter_from_edit name original edited =
      if not (is_request original.kind) || not (is_request edited.kind)
      then none
      else if not (has_changes (diff original edited))
      then none
      else let draft = extract_request (to_request_input original) (to_request_input edited) in
        let filter = into_filter to_lowercase debug uuid name draft in
        let changes = diff original edited in
        some (
          with_body_rewrite replace_request_body_rewrite_action apply_request_json_patch
            request_body_action_from_intent
            (codes "generated JSON patch validates against edited request body") original edited
            (with_host_drop changes (with_header_actions changes filter)))

  unfoldable pub extract_response_filter_from_edit :
      Str → EditableHttpMessage → EditableHttpMessage → EditableHttpMessage → Option GeneratedFilter
  unfolding diff has_changes into_filter extract_response to_request_input to_response_input
      with_header_actions with_body_rewrite replace_response_body_rewrite_action
      response_body_action_from_intent
  extract_response_filter_from_edit name request_context original edited =
      if not (is_response original.kind) || not (is_response edited.kind)
      then none
      else if not (has_changes (diff original edited))
      then none
      else elim (to_response_input original) [
        | none ↦ none
        | some before ↦ elim (to_response_input edited) [
          | none ↦ none
          | some after ↦
              let draft = extract_response (to_request_input request_context) before after in
              let filter = into_filter to_lowercase debug uuid name draft in
              let changes = diff original edited in
              some (
                with_body_rewrite replace_response_body_rewrite_action apply_response_json_patch
                  response_body_action_from_intent
                  (codes "generated JSON patch validates against edited response body") original
                  edited (with_header_actions changes filter))
        ]
      ]

  unfoldable pub request_filter_of :
      Str
      → EditableHttpMessage
      → EditableHttpMessage
      → Result EditedFilterGenerationError GeneratedFilter
  unfolding extract_request_filter_from_edit ok_or_no_changes
  request_filter_of name original edited =
      if is_request edited.kind
      then ok_or_no_changes (extract_request_filter_from_edit name original edited)
      else err (wrong_message_kind request edited.kind)

  unfoldable pub generate_request_filter_from_edited_text :
      Str → FilterRequest → Str → Result EditedFilterGenerationError GeneratedFilter
  unfolding from_filter_request parse_edit_text or_parse_error request_filter_of
  generate_request_filter_from_edited_text name req edited_text =
      let original = from_filter_request req in
      or_parse_error (parse_edit_text edited_text (some original))
      >>= request_filter_of name original

  unfoldable pub response_filter_of :
      Str
      → EditableHttpMessage
      → EditableHttpMessage
      → EditableHttpMessage
      → Result EditedFilterGenerationError GeneratedFilter
  unfolding extract_response_filter_from_edit ok_or_no_changes
  response_filter_of name request_context original edited =
      if not (is_response edited.kind)
      then err (wrong_message_kind response edited.kind)
      else elim edited.status [
        | none ↦ err missing_response_status
        | some status ↦
            ok_or_no_changes
              (extract_response_filter_from_edit name request_context original edited)
      ]

  unfoldable pub generate_response_filter_from_edited_text :
      Str
      → FilterRequest
      → FilterResponse
      → Str
      → Result EditedFilterGenerationError GeneratedFilter
  unfolding from_filter_request from_filter_response parse_edit_text or_parse_error
      response_filter_of
  generate_response_filter_from_edited_text name req res edited_text =
      let original = from_filter_response req res in
      or_parse_error (parse_edit_text edited_text (some original))
      >>= response_filter_of name (from_filter_request req) original
