-- ===== src/Editor/Generate.antt =====
-- src/filters/editor.rs, the filter that is made of an edited message. serde_json, the trees of tree-sitter,
-- `{:?}` of a text, `char::to_lowercase` and the identifier that a filter draws are parameters.
pub mod Extract
use inspect.Common.{
  ℕ, Bool, true, false, not, ◌&&◌, ◌||◌, Option, none, some, List, [], ◌∷◌, ◌++◌, Str, codes,
  is_empty, or_else, unwrap_or, if◌then◌else◌, Result, ok, err, ◌>>=◌,
}
use inspect.Filter.Types.{FilterRequest, FilterResponse}
use inspect.Json.Patch.{GeneratedJsonPatchOperation, JsonLib, validate_json_patch_operations}
use inspect.Json.Operations.{json_patch_operations_from_diff_events}
use inspect.Semantic.{
  BodyLanguage, as_label, RewriteConfidence, low, medium, high, BodyAnchor, contains_all,
  js_property, css_declaration, html_attribute, BodyRewriteOperation, BodyRewriteIntent,
  TextReplacement, extract_body_rewrite_intent, replace_text, replace_text_once, replace_text_all,
  replace_regex, replace_text_when_contains, replace_js_property, replace_css_declaration,
  replace_html_attribute,
}
use inspect.Generator.{
  GeneratedFilter, GeneratedFilterAction, add_action, add_rewrite_note, extend_actions,
  replace_request_body_rewrite_action, replace_response_body_rewrite_action,
  replace_request_body_text_once, replace_request_body_text_all, replace_request_body_regex,
  replace_request_body_text_when_contains, replace_request_js_property,
  replace_request_css_declaration, replace_request_html_attribute, replace_response_body_text_once,
  replace_response_body_text_all, replace_response_body_regex,
  replace_response_body_text_when_contains, replace_response_js_property,
  replace_response_css_declaration, replace_response_html_attribute, apply_request_json_patch,
  apply_response_json_patch,
}
use inspect.Generator.Rewrite.{GeneratedRewriteDraft, extract_request, extract_response}
use inspect.Generator.IntoFilter.{into_filter}
use inspect.Editor.{
  EditableHttpMessageKind, EditableHttpMessage, EditableHttpHeader, request, response, body_text,
  body_content_type, eq_ignore_ascii_case, from_filter_request, from_filter_response,
}
use inspect.Editor.Parse.{EditableHttpMessageParseError, parse_edit_text}
use inspect.Editor.Changes.{diff, has_changes, header_actions, to_request_input, to_response_input}
use inspect.Editor.Semantic.{semantic_diff}

pub data EditedFilterGenerationError : Type 0 where
  parse : EditableHttpMessageParseError → EditedFilterGenerationError
  no_changes : EditedFilterGenerationError
  wrong_message_kind : (expected actual : EditableHttpMessageKind) → EditedFilterGenerationError
  missing_response_status : EditedFilterGenerationError

abbrev pub is_request : EditableHttpMessageKind → Bool
is_request request = true
is_request response = false

abbrev pub is_response : EditableHttpMessageKind → Bool
is_response request = false
is_response response = true

unfoldable pub request_body_action_from_intent : BodyRewriteOperation → Option GeneratedFilterAction
request_body_action_from_intent (replace_text old new) =
    some (replace_request_body_text_once old new)
request_body_action_from_intent (replace_text_once old new) =
    some (replace_request_body_text_once old new)
request_body_action_from_intent (replace_text_all old new) =
    some (replace_request_body_text_all old new)
request_body_action_from_intent (replace_regex pattern replacement) =
    some (replace_request_body_regex pattern replacement)
request_body_action_from_intent (replace_text_when_contains anchor old new) =
    some (replace_request_body_text_when_contains anchor old new)
request_body_action_from_intent (replace_js_property property old new) =
    some (replace_request_js_property property old new)
request_body_action_from_intent (replace_css_declaration property old new) =
    some (replace_request_css_declaration property old new)
request_body_action_from_intent (replace_html_attribute selector attribute old new) =
    some (replace_request_html_attribute selector attribute old new)
request_body_action_from_intent _ = none

unfoldable pub response_body_action_from_intent :
    BodyRewriteOperation → Option GeneratedFilterAction
response_body_action_from_intent (replace_text old new) =
    some (replace_response_body_text_once old new)
response_body_action_from_intent (replace_text_once old new) =
    some (replace_response_body_text_once old new)
response_body_action_from_intent (replace_text_all old new) =
    some (replace_response_body_text_all old new)
response_body_action_from_intent (replace_regex pattern replacement) =
    some (replace_response_body_regex pattern replacement)
response_body_action_from_intent (replace_text_when_contains anchor old new) =
    some (replace_response_body_text_when_contains anchor old new)
response_body_action_from_intent (replace_js_property property old new) =
    some (replace_response_js_property property old new)
response_body_action_from_intent (replace_css_declaration property old new) =
    some (replace_response_css_declaration property old new)
response_body_action_from_intent (replace_html_attribute selector attribute old new) =
    some (replace_response_html_attribute selector attribute old new)
response_body_action_from_intent _ = none

unfoldable pub removes_host : List EditableHttpHeader → Bool
unfolding eq_ignore_ascii_case
removes_host [] = false
removes_host (header ∷ headers) =
    eq_ignore_ascii_case header.name (codes "host") || removes_host headers

abbrev pub confidence_text : RewriteConfidence → Str
confidence_text low = codes "Low"
confidence_text medium = codes "Medium"
confidence_text high = codes "High"

unfoldable pub semantic_note : BodyRewriteIntent → Str
unfolding as_label
semantic_note intent =
    codes "semantic body rewrite: language="
    ++ (as_label intent.language ++ (codes ", confidence=" ++ confidence_text intent.confidence))

unfoldable pub extract_request_rewrite_from_edit :
    EditableHttpMessage → EditableHttpMessage → Option GeneratedRewriteDraft
unfolding diff has_changes extract_request to_request_input
extract_request_rewrite_from_edit original edited =
    if not (is_request original.kind) || not (is_request edited.kind)
    then none
    else if not (has_changes (diff original edited))
    then none
    else some (extract_request (to_request_input original) (to_request_input edited))

unfoldable pub extract_response_rewrite_from_edit :
    EditableHttpMessage → EditableHttpMessage → EditableHttpMessage → Option GeneratedRewriteDraft
unfolding diff has_changes extract_response to_request_input to_response_input
extract_response_rewrite_from_edit request_context original edited =
    if not (is_response original.kind) || not (is_response edited.kind)
    then none
    else if not (has_changes (diff original edited))
    then none
    else elim (to_response_input original) [
      | none ↦ none
      | some before ↦ elim (to_response_input edited) [
        | none ↦ none
        | some after ↦ some (extract_response (to_request_input request_context) before after)
      ]
    ]

-- `{:?}` of the values of an anchor.
module _ (debug : Str → Str) where
  unfoldable pub debug_rest : List Str → Str
  debug_rest [] = codes "]"
  debug_rest (s ∷ rest) = codes ", " ++ (debug s ++ debug_rest rest)

  unfoldable pub debug_list : List Str → Str
  unfolding debug_rest
  debug_list [] = codes "[]"
  debug_list (s ∷ rest) = codes "[" ++ (debug s ++ debug_rest rest)

  abbrev pub debug_element : Option Str → Str
  debug_element none = codes "None"
  debug_element (some s) = codes "Some(" ++ (debug s ++ codes ")")

  unfoldable pub anchor_note : GeneratedFilter → BodyAnchor → GeneratedFilter
  unfolding add_rewrite_note debug_list
  anchor_note filter (contains_all values) =
      add_rewrite_note filter (codes "semantic anchor: contains all " ++ debug_list values)
  anchor_note filter (js_property property) =
      add_rewrite_note filter (codes "semantic anchor: javascript property " ++ debug property)
  anchor_note filter (css_declaration property) =
      add_rewrite_note filter (codes "semantic anchor: css declaration " ++ debug property)
  anchor_note filter (html_attribute element attribute) = add_rewrite_note filter (
      codes "semantic anchor: html attribute "
      ++ (debug attribute ++ (codes " on " ++ debug_element element)))
  anchor_note filter _ = filter
