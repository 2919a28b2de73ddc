-- ===== src/Editor.antt =====
-- src/filters/editor.rs, the HTTP message that is edited as text: its types, what it is built from, and
-- what is read from it.
pub mod Print
pub mod Parse
pub mod RoundTrip
pub mod Changes
pub mod Semantic
pub mod Generate
pub mod Session
mod Tests
use inspect.Common.{
  ℕ, Bool, true, false, Option, none, some, List, [], ◌∷◌, map, Str, codes, str_eq, length,
  is_empty, to_ascii_lowercase, if◌then◌else◌,
}
use inspect.Filter.Types.{FilterHeader, FilterBody, FilterRequest, FilterResponse}

pub data EditableHttpMessageKind : Type 0 where
  request response : EditableHttpMessageKind

pub record EditableHttpHeader : Type 0 where
  pub name : Str
  pub value : Str

pub data EditableHttpBody : Type 0 where
  text : (content : Str) (content_type : Option Str) → EditableHttpBody
  binary : (bytes_len : ℕ) (content_type : Option Str) → EditableHttpBody
  empty : EditableHttpBody

pub record EditableHttpMessage : Type 0 where
  pub kind : EditableHttpMessageKind
  pub method : Option Str
  pub scheme : Option Str
  pub host : Str
  pub path : Str
  pub query : Str
  pub status : Option ℕ
  pub headers : List EditableHttpHeader
  pub body : EditableHttpBody

unfoldable pub editable_header : FilterHeader → EditableHttpHeader
editable_header header = record { name = header.name; value = header.value }

unfoldable pub editable_headers_from_filter_headers : List FilterHeader → List EditableHttpHeader
unfolding editable_header
editable_headers_from_filter_headers headers = map editable_header headers

unfoldable pub editable_body_from_filter_body : FilterBody → EditableHttpBody
editable_body_from_filter_body body = elim body.text [
  | some content ↦ text content body.content_type
  | none ↦ if is_empty body.bytes then empty else binary (length body.bytes) body.content_type
]

unfoldable pub from_filter_request : FilterRequest → EditableHttpMessage
unfolding editable_headers_from_filter_headers editable_body_from_filter_body
from_filter_request req = record {
  kind = request;
  method = some req.method;
  scheme = some req.scheme;
  host = req.host;
  path = req.path;
  query = req.query;
  status = none;
  headers = editable_headers_from_filter_headers req.headers;
  body = editable_body_from_filter_body req.body;
}

unfoldable pub from_filter_response : FilterRequest → FilterResponse → EditableHttpMessage
unfolding editable_headers_from_filter_headers editable_body_from_filter_body
from_filter_response req res = record {
  kind = response;
  method = none;
  scheme = some req.scheme;
  host = req.host;
  path = req.path;
  query = req.query;
  status = some res.status;
  headers = editable_headers_from_filter_headers res.headers;
  body = editable_body_from_filter_body res.body;
}

unfoldable pub from_filter_response_without_request_context : FilterResponse → EditableHttpMessage
unfolding editable_headers_from_filter_headers editable_body_from_filter_body
from_filter_response_without_request_context res = record {
  kind = response;
  method = none;
  scheme = none;
  host = [];
  path = codes "/";
  query = [];
  status = some res.status;
  headers = editable_headers_from_filter_headers res.headers;
  body = editable_body_from_filter_body res.body;
}

unfoldable pub filter_header : EditableHttpHeader → FilterHeader
filter_header header = record { name = header.name; value = header.value }

unfoldable pub to_filter_headers : EditableHttpMessage → List FilterHeader
unfolding filter_header
to_filter_headers message = map filter_header message.headers

unfoldable pub has_text_body : EditableHttpMessage → Bool
has_text_body message = elim message.body [ text content kind ↦ true | _ ↦ false ]

abbrev pub text_of : EditableHttpBody → Option Str
text_of (text content content_type) = some content
text_of (binary bytes_len content_type) = none
text_of empty = none

unfoldable pub body_text : EditableHttpMessage → Option Str
body_text message = text_of message.body

abbrev pub content_type_of : EditableHttpBody → Option Str
content_type_of (text content content_type) = content_type
content_type_of (binary bytes_len content_type) = content_type
content_type_of empty = none

unfoldable pub body_content_type : EditableHttpMessage → Option Str
body_content_type message = content_type_of message.body

-- `find_header`: the first header of a name, in ASCII lower case.
unfoldable pub eq_ignore_ascii_case : Str → Str → Bool
eq_ignore_ascii_case a b = str_eq (to_ascii_lowercase a) (to_ascii_lowercase b)

unfoldable pub find_header : List EditableHttpHeader → Str → Option EditableHttpHeader
unfolding eq_ignore_ascii_case
find_header [] name = none
find_header (header ∷ headers) name =
    if eq_ignore_ascii_case header.name name then some header else find_header headers name

abbrev pub value_of : Option EditableHttpHeader → Option Str
value_of none = none
value_of (some header) = some header.value

unfoldable pub header_value : EditableHttpMessage → Str → Option Str
unfolding find_header
header_value message name = value_of (find_header message.headers name)
