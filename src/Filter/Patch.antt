-- ===== src/Filter/Patch.antt =====
-- src/mitm/flow/filter_bridge.rs, how a patch changes a request or a response. The parsers of the HTTP
-- library are parameters: of a header name (to its lower case form), of a header value, of a method, of
-- a status and of a path with query; so is its `Uri::from_parts`. A header map is the list of its entries;
-- `insert` replaces all values of a name by one.
pub mod Headers
mod Body
mod Tests
use inspect.Common.{
  ℕ, Bool, true, false, not, ◌&&◌, ◌||◌, Option, none, some, List, [], ◌∷◌, ◌++◌, Str, Bytes, codes,
  str_eq, is_some, is_empty, or_else, unwrap_or, if◌then◌else◌,
}
use inspect.Filter.Types.{FilterHeader, FilterBodyPatch, FilterRequestPatch, FilterResponsePatch}

-- Entries of a header map: the name in lower case, and the value.
abbrev pub HeaderMap : Type 0
HeaderMap = List (Str × Str)

unfoldable pub remove_header : Str → HeaderMap → HeaderMap
remove_header name [] = []
remove_header name (entry ∷ headers) =
    let rest = remove_header name headers in if str_eq entry.0 name then rest else entry ∷ rest

unfoldable pub get_header : Str → HeaderMap → Option Str
get_header name [] = none
get_header name (entry ∷ headers) =
    let rest = get_header name headers in if str_eq entry.0 name then some entry.1 else rest

unfoldable pub insert_header : Str → Str → HeaderMap → HeaderMap
insert_header name value [] = (name, value) ∷ []
insert_header name value (entry ∷ headers) =
    let later = insert_header name value headers in
    if str_eq entry.0 name then (name, value) ∷ remove_header name headers else entry ∷ later

unfoldable pub remove_body_integrity_headers : HeaderMap → HeaderMap
remove_body_integrity_headers headers = remove_header (codes "content-md5") (
    remove_header (codes "etag")
      (remove_header (codes "content-encoding") (remove_header (codes "content-length") headers)))

pub record Uri : Type 0 where
  pub scheme : Option Str
  pub authority : Option Str
  pub path : Str
  pub query : Option Str

pub record RequestParts : Type 0 where
  pub method : Str
  pub uri : Uri
  pub headers : HeaderMap

pub record ResponseParts : Type 0 where
  pub status : ℕ
  pub headers : HeaderMap

-- The parsers of the HTTP library.
pub record HttpParsers : Type 0 where
  pub header_name : Str → Option Str
  pub header_value : Str → Option Str
  pub method : Str → Option Str
  pub status : ℕ → Option ℕ
  -- A path and query, parsed into the two.
  pub path_and_query : Str → Option (Str × Option Str)
  pub uri_from_parts : Uri → Option Uri

module _ (http : HttpParsers) where
  unfoldable pub remove_headers : List Str → HeaderMap → HeaderMap
  remove_headers [] headers = headers
  remove_headers (name ∷ names) headers = elim (http.header_name name) [
    | none ↦ remove_headers names headers
    | some parsed ↦ remove_headers names (remove_header parsed headers)
  ]

  unfoldable pub set_header : FilterHeader → HeaderMap → HeaderMap
  set_header header headers = elim (http.header_name header.name) [
    | none ↦ headers
    | some name ↦ elim (http.header_value header.value) [
      | none ↦ headers
      | some value ↦ insert_header name value headers
    ]
  ]

  unfoldable pub set_headers : List FilterHeader → HeaderMap → HeaderMap
  set_headers [] headers = headers
  set_headers (header ∷ rest) headers = set_headers rest (set_header header headers)

  unfoldable pub apply_header_patch : List FilterHeader → List Str → HeaderMap → HeaderMap
  apply_header_patch set removed headers = set_headers set (remove_headers removed headers)

  -- The part of both patches that is about the body.
  unfoldable pub apply_body_patch : Option FilterBodyPatch → HeaderMap → Bytes → HeaderMap × Bytes
  apply_body_patch none headers body = (headers, body)
  apply_body_patch (some patch) headers body =
      let stripped = remove_body_integrity_headers headers in
      elim patch.content_type [
        | none ↦ (stripped, patch.bytes)
        | some content_type ↦ elim (http.header_value content_type) [
          | none ↦ (stripped, patch.bytes)
          | some value ↦ (insert_header (codes "content-type") value stripped, patch.bytes)
        ]
      ]

  abbrev pub with_query : Str → Option Str → Str
  with_query path none = path
  with_query path (some query) = if is_empty query then path else path ++ (codes "?" ++ query)

  -- The uri with a new path and query; the old one if they do not parse.
  unfoldable pub next_uri : Option Str → Option Str → Uri → Uri
  next_uri path query uri =
      elim (http.path_and_query (with_query (unwrap_or path uri.path) (or_else query uri.query))) [
        | none ↦ uri
        | some (next_path, next_query) ↦
            unwrap_or (http.uri_from_parts (record uri { path = next_path; query = next_query }))
              uri
      ]

  abbrev pub next_method : Option Str → Str → Str
  next_method none method = method
  next_method (some text) method = unwrap_or (http.method text) method

  abbrev pub next_status : Option ℕ → ℕ → ℕ
  next_status none status = status
  next_status (some code) status = unwrap_or (http.status code) status

  unfoldable pub apply_request_patch :
      RequestParts → Bytes → FilterRequestPatch → RequestParts × Bytes
  apply_request_patch parts body patch =
      let (headers, next_body) =
        apply_body_patch patch.body
          (apply_header_patch patch.set_headers patch.remove_headers parts.headers) body in
      (
        record {
          method = next_method patch.method parts.method;
          uri =
              if is_some patch.path || is_some patch.query
              then next_uri patch.path patch.query parts.uri
              else parts.uri;
          headers = headers;
        },
        next_body,
      )

  unfoldable pub apply_response_patch :
      ResponseParts → Bytes → FilterResponsePatch → ResponseParts × Bytes
  apply_response_patch parts body patch =
      let (headers, next_body) =
        apply_body_patch patch.body
          (apply_header_patch patch.set_headers patch.remove_headers parts.headers) body in
      (record { status = next_status patch.status parts.status; headers = headers }, next_body)
