-- ===== src/Editor/Tests.antt =====
-- src/filters/editor.rs on concrete messages.
use inspect.Common.{
  ℕ, ◌≡◌, ◌↔◌, refl, true, false, ◌&&◌, Option, none, some, List, [], ◌∷◌, Str, codes, str_eq,
  is_empty, ok, err, Lacks, IsLine, StartsPlain, EndsPlain, starts_with, is_whitespace, lines,
  cut_at, ends_with_char, arith,
}
use inspect.Filter.Types.{FilterRequest, FilterResponse, FilterBody}
use inspect.Json.Codec.{coded_lib}
use inspect.Semantic.{BodyLanguage, BodyRewriteIntent, TextReplacement}
use inspect.Editor.{
  EditableHttpMessage, EditableHttpHeader, EditableHttpBody, request, text, empty, header_value,
  find_header, eq_ignore_ascii_case,
}
use inspect.Editor.Print.{to_edit_text}
use inspect.Editor.Parse.{parse_edit_text}
use inspect.Editor.RoundTrip.{IsField, IsHeader, IsEditable}
use inspect.Editor.RoundTrip.Whole.{parse_edit_text-to_edit_text}
use inspect.Editor.Changes.{diff, has_changes, header_actions}
use inspect.Editor.Changes.Unchanged.{Consistent}
use inspect.Editor.Changes.Actions.{value_behind_all}
use inspect.Editor.Changes.Actions.Whole.{header_actions-value}
use inspect.Editor.Semantic.{push_header_diff_events}
use inspect.Editor.Semantic.Agreement.{push_header_diff_events-diff}
use inspect.Editor.Generate.Extract.{generate_response_filter_from_edited_text}
use inspect.Editor.Session.{
  EditableFilterSession, of_request, of_filter_response, set_edited_text, reset, original_of,
  edited_message, no_changes,
}
use inspect.Editor.Session.Preview.{generate_filter, preview}
use inspect.Editor.Session.Outcomes.{Verdict, generate_filter-Verdict}
use inspect.Editor.Session.Shown.{script_of, preview-generate_filter, generate_filter-reset}
use inspect.Editor.Session.Agreement.{map_err, generate_filter-response}

abbrev header : Str → Str → EditableHttpHeader
header name value = record { name = name; value = value }

abbrev message : List EditableHttpHeader → EditableHttpBody → EditableHttpMessage
message headers body = record {
  kind = request;
  method = some (codes "POST");
  scheme = some (codes "https");
  host = codes "example.com";
  path = codes "/form";
  query = codes "a=1";
  status = none;
  headers = headers;
  body = body;
}

abbrev original : EditableHttpMessage
original =
    message (header (codes "Accept") (codes "text/html") ∷ header (codes "X-Old") (codes "1") ∷ [])
      (text (codes "name=x\nbody:\n") (some (codes "text/plain")))

abbrev edited : EditableHttpMessage
edited =
    message (header (codes "accept") (codes "*/*") ∷ header (codes "X-New") (codes "2") ∷ [])
      (text (codes "name=x\nbody:\n") (some (codes "text/plain")))

IsField-of : (s : Str) → IsLine s → StartsPlain s → EndsPlain s → IsField s
IsField-of s h k l = record { line = h; trimmed = record { starts = k; ends = l } }

header_of :
    (name value : Str)
    → IsField name
    → Lacks b':' name
    → (is_empty name ≡ false) × (starts_with (codes "#") name ≡ false)
    → IsField value
    → IsHeader (header name value)
header_of name value field lacks (named, no_comment) h = record {
  name = record { field = field; lacks = lacks; named = named; no_comment = no_comment };
  value = h;
}

original-IsEditable : IsEditable original
unfolding is_whitespace starts_with
original-IsEditable = record {
  method = (IsField-of _ (ground arith) refl refl, refl);
  scheme = (IsField-of _ (ground arith) refl refl, refl);
  host = IsField-of _ (ground arith) refl refl;
  path = IsField-of _ (ground arith) refl refl;
  query = IsField-of _ (ground arith) refl refl;
  status = tt;
  headers = (
    header_of _ _ (IsField-of _ (ground arith) refl refl) (ground arith) (refl, refl)
        (IsField-of _ (ground arith) refl refl),
    (
      header_of _ _ (IsField-of _ (ground arith) refl refl) (ground arith) (refl, refl)
          (IsField-of _ (ground arith) refl refl),
      tt,
    ),
  );
}

parse_edit_text-to_edit_text_example :
    parse_edit_text (to_edit_text original) (some original) ≡ ok original
parse_edit_text-to_edit_text_example = parse_edit_text-to_edit_text original original-IsEditable

header_actions-value_example :
    value_behind_all
      (codes "ACCEPT")
      (header_actions (diff original edited))
      (header_value original (codes "ACCEPT"))
    ≡ header_value edited (codes "ACCEPT")
unfolding header_value find_header eq_ignore_ascii_case str_eq
header_actions-value_example =
    header_actions-value original edited (codes "ACCEPT") (refl, (refl, tt))

push_header_diff_events-diff_example :
    is_empty (push_header_diff_events original.headers edited.headers) ≡ (
      is_empty (diff original edited).removed_headers
      && is_empty (diff original edited).changed_headers
      && is_empty (diff original edited).added_headers)
push_header_diff_events-diff_example = push_header_diff_events-diff original edited

abbrev no_syntax : BodyLanguage → Str → TextReplacement → Option BodyRewriteIntent
no_syntax language body replacement = none

abbrev same_char : ℕ → Str
same_char c = c ∷ []

abbrev same_text : Str → Str
same_text s = s

abbrev session : EditableFilterSession
session = of_request (codes "filter") original (codes "changed")

-- Two cookies that are set: the second one has another value than the first of its name.
abbrev two_cookies : EditableHttpMessage
two_cookies =
    message
      (header (codes "set-cookie") (codes "a=1") ∷ header (codes "set-cookie") (codes "b=2") ∷ [])
      empty

generate_filter-reset_example :
    (generate_filter coded_lib no_syntax same_char same_text (codes "0") (reset session)
      ≡ err no_changes)
    ↔ Consistent original
unfolding original_of
generate_filter-reset_example =
    generate_filter-reset coded_lib no_syntax same_char same_text (codes "0") session refl
      original-IsEditable

preview-generate_filter_example :
    (preview coded_lib no_syntax same_char same_text (codes "0") session).generated_roto
    ≡ script_of coded_lib
        (generate_filter coded_lib no_syntax same_char same_text (codes "0") session)
preview-generate_filter_example =
    preview-generate_filter coded_lib no_syntax same_char same_text (codes "0") session

two_cookies-changed : has_changes (diff two_cookies two_cookies) ≡ true
unfolding diff has_changes
two_cookies-changed = refl

-- The edited text is that of `edited`.
abbrev changed_session : EditableFilterSession
unfolding to_edit_text
changed_session = of_request (codes "filter") original (to_edit_text edited)

changed_session-edited : edited_message changed_session ≡ ok edited
unfolding changed_session edited_message lines cut_at is_whitespace ends_with_char
changed_session-edited = refl

generate_filter-Verdict_example :
    Verdict
      (has_changes (diff (original_of changed_session) edited))
      (generate_filter coded_lib no_syntax same_char same_text (codes "0") changed_session)
unfolding changed_session
generate_filter-Verdict_example =
    generate_filter-Verdict coded_lib no_syntax same_char same_text (codes "0") changed_session
      edited refl changed_session-edited refl

abbrev no_body : FilterBody
no_body = record {
  bytes = [];
  text = none;
  content_type = none;
  encoding = none;
  truncated = false;
}

abbrev a_request : FilterRequest
a_request = record {
  id = codes "1";
  seq = 1;
  flow_key = [];
  method = codes "GET";
  scheme = codes "https";
  host = codes "example.com";
  path = codes "/";
  query = [];
  version = codes "HTTP/1.1";
  headers = [];
  body = no_body;
  tls_sni = none;
}

abbrev a_response : FilterResponse
a_response = record {
  status = 200;
  version = codes "HTTP/1.1";
  headers = [];
  body = no_body;
  upstream_status = none;
  elapsed_ms = none;
}

abbrev status_changed : Str
status_changed =
    codes "kind: response\nstatus: 404\nhost: example.com\npath: /\nquery: \n\nheaders:\n\nbody:\n"

generate_filter-response_example :
    generate_filter coded_lib no_syntax same_char same_text
      (codes "0")
      (set_edited_text (of_filter_response (codes "filter") a_request a_response) status_changed)
    ≡ map_err (
        generate_response_filter_from_edited_text coded_lib no_syntax same_char same_text
          (codes "0")
          (codes "filter")
          a_request
          a_response
          status_changed)
generate_filter-response_example =
    generate_filter-response coded_lib no_syntax same_char same_text (codes "0") (codes "filter")
      a_request a_response status_changed
