-- ===== src/Editor/Parse.antt =====
-- src/filters/editor.rs, `EditableHttpMessage::parse_edit_text` and the functions under it. The message
-- of a parse error is a constructor with the text that it quotes.
use inspect.Common.{
  ℕ, not, ◌&&◌, Option, none, some, List, [], ◌∷◌, ◌++◌, Str, codes, str_eq, to_ascii_lowercase,
  starts_with, length, is_empty, or_else, ◌==◌, ◌+◌, if◌then◌else◌, Result, ok, err, ◌>>=◌, trim,
  trim_start, trim_end, lines, split_once, cut_at, ends_with_char, parse_u16, line_feed,
}
use inspect.Editor.{
  EditableHttpMessageKind, EditableHttpMessage, EditableHttpHeader, EditableHttpBody, request,
  response, text, binary, empty, content_type_of,
}

pub data EditableHttpMessageParseError : Type 0 where
  invalid_meta_line : (line : Str) → EditableHttpMessageParseError
  invalid_kind : (value : Str) → EditableHttpMessageParseError
  invalid_status : (value : Str) → EditableHttpMessageParseError
  unknown_meta_key : (key : Str) → EditableHttpMessageParseError
  invalid_header_line : (line : Str) → EditableHttpMessageParseError
  empty_header_name : EditableHttpMessageParseError

pub record EditTextSections : Type 0 where
  pub meta : Str
  pub headers : Str
  pub body : Str

abbrev pub headers_marker : Str
headers_marker = codes "\nheaders:\n"

abbrev pub body_marker : Str
body_marker = codes "\nbody:\n"

unfoldable pub split_after_meta : Str → Str → EditTextSections
split_after_meta meta after_meta = elim (cut_at body_marker after_meta) [
  | none ↦ record { meta = meta; headers = after_meta; body = [] }
  | some (headers, body) ↦ record { meta = meta; headers = headers; body = body }
]

unfoldable pub split_edit_text_sections : Str → EditTextSections
unfolding split_after_meta
split_edit_text_sections s = elim (cut_at headers_marker s) [
  | none ↦ record { meta = s; headers = []; body = [] }
  | some (meta, after_meta) ↦ split_after_meta meta after_meta
]

-- How both loops read one line: blank lines and comments are skipped, a line without a colon is an
-- error, and both sides of the first colon are trimmed.
pub data Line : Type 0 where
  skipped : Line
  broken : Str → Line
  field : (key value : Str) → Line

unfoldable pub read_trimmed : Str → Line
unfolding starts_with split_once trim_start trim_end
read_trimmed line =
    if is_empty line
    then skipped
    else if starts_with (codes "#") line
    then skipped
    else elim (split_once b':' line) [
      | none ↦ broken line
      | some (key, value) ↦ field (trim key) (trim value)
    ]

unfoldable pub read_line : Str → Line
unfolding read_trimmed trim_start trim_end
read_line raw = read_trimmed (trim raw)

unfoldable pub empty_to_none : Str → Option Str
empty_to_none value = if is_empty value then none else some value

-- The variables of the first loop.
pub record Meta : Type 0 where
  pub kind : EditableHttpMessageKind
  pub method : Option Str
  pub scheme : Option Str
  pub host : Str
  pub path : Str
  pub query : Str
  pub status : Option ℕ
  pub body_content_type : Option Str

unfoldable pub start_meta : Option EditableHttpMessage → Meta
start_meta none = record {
  kind = request;
  method = none;
  scheme = none;
  host = [];
  path = codes "/";
  query = [];
  status = none;
  body_content_type = none;
}
start_meta (some message) = record {
  kind = message.kind;
  method = message.method;
  scheme = message.scheme;
  host = message.host;
  path = message.path;
  query = message.query;
  status = message.status;
  body_content_type = content_type_of message.body;
}

unfoldable pub read_kind : Str → Result EditableHttpMessageParseError EditableHttpMessageKind
unfolding str_eq
read_kind value =
    if str_eq value (codes "request")
    then ok request
    else if str_eq value (codes "response")
    then ok response
    else err (invalid_kind value)

unfoldable pub read_status : Str → Result EditableHttpMessageParseError (Option ℕ)
read_status value = if is_empty value then ok none else elim (parse_u16 value) [
  | none ↦ err (invalid_status value)
  | some status ↦ ok (some status)
]

-- The match on the key, which is in ASCII lower case.
unfoldable pub set_meta : Str → Str → Meta → Result EditableHttpMessageParseError Meta
unfolding str_eq read_kind read_status empty_to_none
set_meta key value m =
    if str_eq key (codes "kind")
    then (read_kind value >>= λ kind. ok (record m { kind = kind }))
    else if str_eq key (codes "method")
    then ok (record m { method = empty_to_none value })
    else if str_eq key (codes "scheme")
    then ok (record m { scheme = empty_to_none value })
    else if str_eq key (codes "host")
    then ok (record m { host = value })
    else if str_eq key (codes "path")
    then ok (record m { path = value })
    else if str_eq key (codes "query")
    then ok (record m { query = value })
    else if str_eq key (codes "status")
    then (read_status value >>= λ status. ok (record m { status = status }))
    else if str_eq key (codes "content-type")
    then ok (record m { body_content_type = empty_to_none value })
    else if str_eq key (codes "content_type")
    then ok (record m { body_content_type = empty_to_none value })
    else err (unknown_meta_key key)

unfoldable pub meta_round : Line → Meta → Result EditableHttpMessageParseError Meta
unfolding set_meta
meta_round skipped m = ok m
meta_round (broken line) m = err (invalid_meta_line line)
meta_round (field key value) m = set_meta (to_ascii_lowercase key) value m

unfoldable pub read_meta : List Str → Meta → Result EditableHttpMessageParseError Meta
unfolding read_line meta_round
read_meta [] m = ok m
read_meta (line ∷ rest) m = meta_round (read_line line) m >>= read_meta rest

unfoldable pub header_round :
    Line → List EditableHttpHeader → Result EditableHttpMessageParseError (List EditableHttpHeader)
header_round skipped headers = ok headers
header_round (broken line) headers = err (invalid_header_line line)
header_round (field name value) headers =
    if is_empty name
    then err empty_header_name
    else ok (headers ++ (record { name = name; value = value } ∷ []))

unfoldable pub read_headers :
    List Str
    → List EditableHttpHeader
    → Result EditableHttpMessageParseError (List EditableHttpHeader)
unfolding read_line header_round
read_headers [] headers = ok headers
read_headers (line ∷ rest) headers = header_round (read_line line) headers >>= read_headers rest

unfoldable pub parse_edit_headers :
    Str → Result EditableHttpMessageParseError (List EditableHttpHeader)
unfolding read_headers
parse_edit_headers s = read_headers (lines s) []

-- The line feed that the text of the message got behind its body is taken off again.
unfoldable pub normalized_body_text : Str → Str → Str
normalized_body_text original body =
    if not (ends_with_char line_feed original)
      && length body == length original + 1
      && starts_with original body
      && ends_with_char line_feed body
    then original
    else body

unfoldable pub new_body : Str → Option Str → EditableHttpBody
new_body body content_type = if is_empty body then empty else text body content_type

unfoldable pub parse_body : Option EditableHttpMessage → Str → Option Str → EditableHttpBody
unfolding normalized_body_text new_body
parse_body none body content_type = new_body body content_type
parse_body (some original) body content_type = elim original.body [
  | binary bytes_len kind ↦ binary bytes_len kind
  | text content kind ↦ text (normalized_body_text content body) (or_else content_type kind)
  | empty ↦ new_body body content_type
]

unfoldable pub message_of : Meta → List EditableHttpHeader → EditableHttpBody → EditableHttpMessage
message_of m headers body = record {
  kind = m.kind;
  method = m.method;
  scheme = m.scheme;
  host = m.host;
  path = m.path;
  query = m.query;
  status = m.status;
  headers = headers;
  body = body;
}

unfoldable pub parse_sections :
    EditTextSections
    → Option EditableHttpMessage
    → Result EditableHttpMessageParseError EditableHttpMessage
unfolding read_meta start_meta parse_edit_headers parse_body message_of
parse_sections sections original = do
  m ← read_meta (lines sections.meta) (start_meta original)
  headers ← parse_edit_headers sections.headers
  ok (message_of m headers (parse_body original sections.body m.body_content_type))

unfoldable pub parse_edit_text :
    Str → Option EditableHttpMessage → Result EditableHttpMessageParseError EditableHttpMessage
unfolding split_edit_text_sections parse_sections
parse_edit_text s original = parse_sections (split_edit_text_sections s) original
