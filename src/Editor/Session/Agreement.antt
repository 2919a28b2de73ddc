-- ===== src/Editor/Session/Agreement.antt =====
-- src/filters/editor.rs: a session, and the functions that make a filter of an edited text without one.
use inspect.Common.{ℕ, ◌≡◌, refl, Option, none, some, Str, Result, ok, err, ◌>>=◌}
use inspect.Filter.Types.{FilterRequest, FilterResponse}
use inspect.Json.Patch.{JsonLib}
use inspect.Semantic.{BodyLanguage, BodyRewriteIntent, TextReplacement}
use inspect.Generator.{GeneratedFilter}
use inspect.Editor.{
  EditableHttpMessage, EditableHttpMessageKind, request, response, from_filter_request,
  from_filter_response,
}
use inspect.Editor.Parse.{EditableHttpMessageParseError, parse_edit_text}
use inspect.Editor.Generate.{EditedFilterGenerationError}
use inspect.Editor.Generate.Extract
use inspect.Editor.Generate.Extract.{
  extract_request_filter_from_edit, extract_response_filter_from_edit, request_filter_of,
  response_filter_of, generate_request_filter_from_edited_text,
  generate_response_filter_from_edited_text, or_parse_error,
}
use inspect.Editor.Session.{
  EditableFilterSessionError, parse, no_changes, wrong_message_kind, missing_response_status,
  or_session_error, ok_or_no_changes, set_edited_text, of_filter_request, of_filter_response,
}
use inspect.Editor.Session.Preview.{
  request_session_filter, response_session_filter, generate_filter,
}

-- `From<EditedFilterGenerationError>`.
unfoldable pub from_generation_error : EditedFilterGenerationError → EditableFilterSessionError
from_generation_error (EditedFilterGenerationError.parse e) = parse e
from_generation_error EditedFilterGenerationError.no_changes = no_changes
from_generation_error (EditedFilterGenerationError.wrong_message_kind expected actual) =
    wrong_message_kind expected actual
from_generation_error EditedFilterGenerationError.missing_response_status = missing_response_status

abbrev pub map_err :
    Result EditedFilterGenerationError GeneratedFilter
    → Result EditableFilterSessionError GeneratedFilter
map_err (ok filter) = ok filter
map_err (err e) = err (from_generation_error e)

module _ (lib : JsonLib)
    (syntax_anchor : BodyLanguage → Str → TextReplacement → Option BodyRewriteIntent)
    (to_lowercase : ℕ → Str) (debug : Str → Str) (uuid : Str) where
  ok_or_no_changes-map_err :
      (o : Option GeneratedFilter) → ok_or_no_changes o ≡ map_err (Extract.ok_or_no_changes o)
  unfolding ok_or_no_changes Extract.ok_or_no_changes from_generation_error
  ok_or_no_changes-map_err none = refl
  ok_or_no_changes-map_err (some filter) = refl

  request_filter_of-map_err :
      (name : Str) (original edited : EditableHttpMessage) (k : EditableHttpMessageKind)
      → edited.kind ≡ k
      → request_session_filter lib syntax_anchor to_lowercase debug uuid name original edited
        ≡ map_err (request_filter_of lib syntax_anchor to_lowercase debug uuid name original edited)
  unfolding request_session_filter request_filter_of from_generation_error
  request_filter_of-map_err name original edited request h = rw h (ok_or_no_changes-map_err _)
  request_filter_of-map_err name original edited response h = rw h refl

  response_filter_of-map_err :
      (name : Str) (context original edited : EditableHttpMessage) (k : EditableHttpMessageKind)
      (status : Option ℕ)
      → edited.kind ≡ k
      → edited.status ≡ status
      → response_session_filter lib syntax_anchor to_lowercase debug uuid name context original
          edited
        ≡ map_err (
            response_filter_of lib syntax_anchor to_lowercase debug uuid name context original
              edited)
  unfolding response_session_filter response_filter_of from_generation_error
  response_filter_of-map_err name context original edited request status h i = rw h refl
  response_filter_of-map_err name context original edited response none h i = rw (h, i) refl
  response_filter_of-map_err name context original edited response (some n) h i =
      rw (h, i) (ok_or_no_changes-map_err _)

  bind-map_err :
      (p : Result EditableHttpMessageParseError EditableHttpMessage)
      (f : EditableHttpMessage → Result EditableFilterSessionError GeneratedFilter)
      (g : EditableHttpMessage → Result EditedFilterGenerationError GeneratedFilter)
      → ((m : EditableHttpMessage) → f m ≡ map_err (g m))
      → (or_session_error p >>= f) ≡ map_err (or_parse_error p >>= g)
  unfolding or_session_error or_parse_error from_generation_error
  bind-map_err (ok m) f g h = h m
  bind-map_err (err e) f g h = refl

  -- A session answers as the function that takes the request and the edited text: with the same filter, or
  -- the error of the same name.
  pub generate_filter-request :
      (name : Str) (req : FilterRequest) (edited_text : Str)
      → generate_filter lib syntax_anchor to_lowercase debug uuid
          (set_edited_text (of_filter_request name req) edited_text)
        ≡ map_err (
            generate_request_filter_from_edited_text lib syntax_anchor to_lowercase debug uuid name
              req edited_text)
  unfolding generate_filter generate_request_filter_from_edited_text set_edited_text
      of_filter_request
  generate_filter-request name req edited_text =
      bind-map_err (parse_edit_text edited_text (some (from_filter_request req))) _ _
        (λ m. request_filter_of-map_err name (from_filter_request req) m _ refl)

  -- The same for a response.
  pub generate_filter-response :
      (name : Str) (req : FilterRequest) (res : FilterResponse) (edited_text : Str)
      → generate_filter lib syntax_anchor to_lowercase debug uuid
          (set_edited_text (of_filter_response name req res) edited_text)
        ≡ map_err (
            generate_response_filter_from_edited_text lib syntax_anchor to_lowercase debug uuid name
              req res edited_text)
  unfolding generate_filter generate_response_filter_from_edited_text set_edited_text
      of_filter_response
  generate_filter-response name req res edited_text =
      bind-map_err (parse_edit_text edited_text (some (from_filter_response req res))) _ _ (λ m.
        response_filter_of-map_err name (from_filter_request req) (from_filter_response req res) m _
          _ refl refl)
