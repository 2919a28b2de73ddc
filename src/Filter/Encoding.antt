-- ===== src/Filter/Encoding.antt =====
-- src/mitm/flow/body_encoding.rs, and in src/mitm/flow/filter_bridge.rs how a filter's request and
-- response are built. The decoders of the compression libraries are parameters, none for an error; so are
-- `HeaderValue::to_str`, none for a value that is not visible ASCII, `std::str::from_utf8` and the
-- base64 encoder.
mod Laws
mod Tests
use inspect.Common.{
  ℕ, Bool, true, false, not, ◌&&◌, ◌||◌, Option, none, some, List, [], ◌∷◌, ◌++◌, map, Str, Bytes,
  codes, str_eq, starts_with, to_ascii_lowercase, is_empty, unwrap_or, ◌==◌, if◌then◌else◌, trim,
  trim_start, trim_end,
}
use inspect.Filter.Types.{FilterHeader, FilterRequest, FilterResponse, FilterBody}
use inspect.Filter.Patch.{HeaderMap, get_header, RequestParts, ResponseParts}

pub record Decoders : Type 0 where
  pub to_str : Str → Option Str
  pub gzip : Bytes → Option Bytes
  pub deflate : Bytes → Option Bytes
  pub brotli : Bytes → Option Bytes
  pub zstd : Bytes → Option Bytes

-- `split(sep).next()`: the text in front of the first separator.
unfoldable pub before_first : ℕ → Str → Str
before_first sep [] = []
before_first sep (c ∷ s) = let rest = before_first sep s in if c == sep then [] else c ∷ rest

-- `split(sep)`.
abbrev pub prepend : ℕ → List Str → List Str
prepend c [] = (c ∷ []) ∷ []
prepend c (piece ∷ pieces) = (c ∷ piece) ∷ pieces

unfoldable pub split_on : ℕ → Str → List Str
split_on sep [] = [] ∷ []
split_on sep (c ∷ s) = let rest = split_on sep s in if c == sep then [] ∷ rest else prepend c rest

unfoldable pub join : Str → List Str → Str
join sep [] = []
join sep (piece ∷ []) = piece
join sep (piece ∷ next ∷ pieces) = piece ++ (sep ++ join sep (next ∷ pieces))

-- The suffix of one encoding, if it has one.
unfoldable pub suffix_of : Str → List Str
suffix_of encoding =
    if str_eq encoding (codes "gzip") || str_eq encoding (codes "x-gzip")
    then codes "gz" ∷ []
    else if str_eq encoding (codes "br")
    then codes "br" ∷ []
    else if str_eq encoding (codes "zstd")
    then codes "zst" ∷ []
    else if str_eq encoding (codes "deflate")
    then codes "deflate" ∷ []
    else []

unfoldable pub suffixes_of : List Str → List Str
suffixes_of [] = []
suffixes_of (encoding ∷ encodings) =
    suffix_of (to_ascii_lowercase (trim encoding)) ++ suffixes_of encodings

module _ (decoders : Decoders) where
  -- The match on the name of an encoding.
  unfoldable pub decode_as : Str → Bytes → Option Bytes
  decode_as encoding body =
      if is_empty encoding || str_eq encoding (codes "identity")
      then some body
      else if str_eq encoding (codes "gzip") || str_eq encoding (codes "x-gzip")
      then decoders.gzip body
      else if str_eq encoding (codes "deflate")
      then decoders.deflate body
      else if str_eq encoding (codes "br")
      then decoders.brotli body
      else if str_eq encoding (codes "zstd")
      then decoders.zstd body
      else none

  unfoldable pub decode_by_content_encoding_header : Str → Bytes → Option Bytes
  decode_by_content_encoding_header value body = elim (decoders.to_str value) [
    | none ↦ none
    | some text ↦ decode_as (to_ascii_lowercase (trim (before_first b',' text))) body
  ]

  unfoldable pub decode_content_encoded_body : HeaderMap → Bytes → Option Bytes
  decode_content_encoded_body headers body = elim (get_header (codes "content-encoding") headers) [
    | none ↦ none
    | some value ↦ decode_by_content_encoding_header value body
  ]

  unfoldable pub decode_body_by_magic_number : Bytes → Option Bytes
  decode_body_by_magic_number body =
      if starts_with (31 ∷ 139 ∷ []) body then decoders.gzip body else none

  unfoldable pub decoded_body_or_raw : HeaderMap → Bytes → Bytes
  decoded_body_or_raw headers body =
      unwrap_or (decode_content_encoded_body headers body)
        (unwrap_or (decode_body_by_magic_number body) body)

  unfoldable pub content_encoding_suffixes : HeaderMap → List Str
  content_encoding_suffixes headers = elim (get_header (codes "content-encoding") headers) [
    | none ↦ []
    | some value ↦ elim (decoders.to_str value) [
      | none ↦ []
      | some text ↦ suffixes_of (split_on b',' text)
    ]
  ]

  unfoldable pub body_file_name : Str → HeaderMap → Str
  body_file_name base headers =
      let suffixes = content_encoding_suffixes headers in
      if is_empty suffixes then base else base ++ (codes "." ++ join (codes ".") suffixes)

  abbrev pub non_empty_lower : Str → Option Str
  non_empty_lower text = if is_empty text then none else some (to_ascii_lowercase text)

  unfoldable pub normalized_content_type : HeaderMap → Option Str
  normalized_content_type headers = elim (get_header (codes "content-type") headers) [
    | none ↦ none
    | some value ↦ elim (decoders.to_str value) [
      | none ↦ none
      | some text ↦ non_empty_lower (trim (before_first b';' text))
    ]
  ]

  module _ (from_utf8 : Bytes → Option Str) (base64 : Str → Str) where
    unfoldable pub filter_headers_from_header_map : HeaderMap → List FilterHeader
    filter_headers_from_header_map headers =
        map
          (λ entry. record {
            name = entry.0;
            value = unwrap_or (decoders.to_str entry.1) (base64 entry.1);
          })
          headers

    abbrev pub encoding_text : HeaderMap → Option Str
    encoding_text headers = elim (get_header (codes "content-encoding") headers) [
      | none ↦ none
      | some value ↦ decoders.to_str value
    ]

    -- The body of a filter's request or response.
    unfoldable pub filter_body : HeaderMap → Bytes → FilterBody
    filter_body headers body = record {
      bytes = body;
      text = from_utf8 (decoded_body_or_raw headers body);
      content_type = normalized_content_type headers;
      encoding = encoding_text headers;
      truncated = false;
    }

    unfoldable pub build_filter_request :
        Str → ℕ → Str → RequestParts → Str → Str → Str → Bytes → Option Str → FilterRequest
    build_filter_request id seq flow_key parts version req_protocol req_host body tls_sni = record {
      id = id;
      seq = seq;
      flow_key = flow_key;
      method = parts.method;
      scheme = req_protocol;
      host = req_host;
      path = parts.uri.path;
      query = unwrap_or parts.uri.query [];
      version = version;
      headers = filter_headers_from_header_map parts.headers;
      body = filter_body parts.headers body;
      tls_sni = tls_sni;
    }

    unfoldable pub build_filter_response :
        ResponseParts → Str → Bytes → Option ℕ → ℕ → FilterResponse
    build_filter_response parts version body upstream_status elapsed_ms = record {
      status = parts.status;
      version = version;
      headers = filter_headers_from_header_map parts.headers;
      body = filter_body parts.headers body;
      upstream_status = upstream_status;
      elapsed_ms = some elapsed_ms;
    }
