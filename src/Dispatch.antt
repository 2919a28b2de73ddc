-- ===== src/Dispatch.antt =====
-- src/mitm/flow/dispatcher.rs, what it decides of a response before its body is read. `HeaderValue::to_str`
-- is the parameter `decoders.to_str`.
pub mod Mode
mod Tests
use inspect.Common.{
  ℕ, zero, suc, ◌+◌, ◌-◌, ◌*◌, Bool, true, false, not, ◌&&◌, ◌||◌, Option, none, some, List, [],
  ◌∷◌, ◌++◌, Str, codes, decimal, any, str_eq, starts_with, to_ascii_lowercase, trim, trim_start,
  trim_end, is_some, unwrap_or, leb, ltb, ◌==◌, if◌then◌else◌,
}
use inspect.Filter.Patch.{HeaderMap, get_header}
use inspect.Filter.Encoding.{Decoders, before_first, split_on, normalized_content_type}
use inspect.Json.Compare.{ends_with}

pub data ResponseBodyMode : Type 0 where
  collect stream probe : ResponseBodyMode

-- `parse::<usize>`: digits, whose number stays below 2^64.
unfoldable pub digits_usize : ℕ → Str → Option ℕ
digits_usize n [] = some n
digits_usize n (c ∷ s) =
    let next = digits_usize (n * 10 + (c - 48)) s in
    if leb b'0' c && leb c b'9' && ltb (n * 10 + (c - 48)) 18446744073709551616 then next else none

unfoldable pub parse_digits : Str → Option ℕ
unfolding digits_usize
parse_digits [] = none
parse_digits (c ∷ s) = digits_usize 0 (c ∷ s)

unfoldable pub parse_usize : Str → Option ℕ
unfolding parse_digits
parse_usize [] = none
parse_usize (c ∷ s) = if c == b'+' then parse_digits s else parse_digits (c ∷ s)

unfoldable pub response_status_never_has_body : ℕ → Bool
response_status_never_has_body status =
    (leb 100 status && ltb status 200) || status == 204 || status == 304

unfoldable pub is_compression : Str → Bool
unfolding str_eq
is_compression encoding =
    str_eq encoding (codes "gzip")
    || str_eq encoding (codes "x-gzip")
    || str_eq encoding (codes "br")
    || str_eq encoding (codes "zstd")
    || str_eq encoding (codes "deflate")

unfoldable pub is_probably_text_content_type : Str → Bool
unfolding starts_with str_eq ends_with
is_probably_text_content_type content_type =
    starts_with (codes "text/") content_type
    || str_eq content_type (codes "application/json")
    || ends_with (codes "+json") content_type
    || str_eq content_type (codes "application/xml")
    || ends_with (codes "+xml") content_type
    || str_eq content_type (codes "application/javascript")
    || str_eq content_type (codes "application/x-javascript")
    || str_eq content_type (codes "application/ecmascript")
    || str_eq content_type (codes "application/x-www-form-urlencoded")

unfoldable pub is_binary_content_type : Str → Bool
unfolding starts_with str_eq
is_binary_content_type content_type =
    starts_with (codes "image/") content_type
    || starts_with (codes "video/") content_type
    || starts_with (codes "audio/") content_type
    || str_eq content_type (codes "application/octet-stream")
    || str_eq content_type (codes "application/pdf")
    || str_eq content_type (codes "application/zip")
    || str_eq content_type (codes "application/x-zip-compressed")
    || str_eq content_type (codes "application/gzip")
    || str_eq content_type (codes "application/x-gzip")
    || str_eq content_type (codes "application/x-tar")
    || str_eq content_type (codes "application/x-7z-compressed")
    || str_eq content_type (codes "application/vnd.rar")
    || str_eq content_type (codes "application/vnd.microsoft.portable-executable")
    || starts_with (codes "application/vnd.") content_type

module _ (decoders : Decoders) where
  -- The text of a header.
  unfoldable pub header_text : Str → HeaderMap → Option Str
  unfolding get_header
  header_text name headers = elim (get_header name headers) [
    | none ↦ none
    | some value ↦ decoders.to_str value
  ]

  unfoldable pub content_length : HeaderMap → Option ℕ
  unfolding header_text parse_usize
  content_length headers = elim (header_text (codes "content-length") headers) [
    | none ↦ none
    | some value ↦ parse_usize value
  ]

  unfoldable pub is_sse_response : HeaderMap → Bool
  unfolding header_text before_first trim_start trim_end str_eq
  is_sse_response headers = elim (header_text (codes "content-type") headers) [
    | none ↦ false
    | some value ↦
        str_eq (to_ascii_lowercase (trim (before_first b';' value))) (codes "text/event-stream")
  ]

  unfoldable pub is_compressed_response : HeaderMap → Bool
  unfolding header_text split_on trim_start trim_end is_compression
  is_compressed_response headers = elim (header_text (codes "content-encoding") headers) [
    | none ↦ false
    | some value ↦
        any (λ encoding. is_compression (to_ascii_lowercase (trim encoding))) (split_on b',' value)
  ]

  unfoldable pub is_probably_binary_response : HeaderMap → Bool
  unfolding normalized_content_type is_probably_text_content_type is_binary_content_type
  is_probably_binary_response headers = elim (normalized_content_type decoders headers) [
    | none ↦ false
    | some content_type ↦
        not (is_probably_text_content_type content_type) && is_binary_content_type content_type
  ]

  -- The mode of a response whose length is not known.
  unfoldable pub mode_without_length : HeaderMap → ResponseBodyMode
  unfolding is_compressed_response is_probably_binary_response
  mode_without_length headers =
      if is_compressed_response headers
      then probe
      else if is_probably_binary_response headers
      then probe
      else collect

  unfoldable pub response_body_mode : Str → ℕ → HeaderMap → ℕ → ResponseBodyMode
  unfolding response_status_never_has_body content_length mode_without_length str_eq
  response_body_mode method status headers threshold =
      if threshold == 0
      then collect
      else if str_eq (to_ascii_lowercase method) (codes "head")
      then collect
      else if response_status_never_has_body status
      then collect
      else elim (content_length headers) [
        | some len ↦ if ltb threshold len then stream else collect
        | none ↦ mode_without_length headers
      ]

  unfoldable pub streaming_response_capture_notice : HeaderMap → ℕ → ℕ → Bool → Str
  unfolding normalized_content_type content_length header_text
  streaming_response_capture_notice headers threshold streamed_bytes interrupted =
      codes
        "<response body streamed by inspect>\n\nThis response body was not fully buffered or captured.\n\nReason:\n  inspect switched this response to streaming mode because it matched the\n  stream_body_threshold_bytes policy or a streaming body heuristic.\n\nConfiguration:\n  stream_body_threshold_bytes = "
      ++ (decimal threshold
          ++ (codes "\n\nObserved response metadata:\n  content-type: "
              ++ (unwrap_or (normalized_content_type decoders headers) (codes "<unknown>")
                  ++ (codes "\n  content-encoding: "
                      ++ (unwrap_or (header_text (codes "content-encoding") headers)
                            (codes "<none>")
                          ++ (codes "\n  content-length: "
                              ++ ((elim (content_length headers) [
                                | none ↦ codes "<unknown>"
                                | some len ↦ decimal len
                              ])
                                  ++ (codes "\n\nStreaming result:\n  status: "
                                      ++ ((if interrupted
                                            then codes
                                                "interrupted before upstream EOF or dropped before normal completion"
                                            else codes "completed normally")
                                          ++ (codes "\n  streamed-bytes-observed-by-inspect: "
                                              ++ (decimal streamed_bytes
                                                  ++ codes
                                                      "\n\nNotes:\n  - The response was forwarded to the client as a stream.\n  - The complete response body is not stored in this capture.\n  - streamed-bytes-observed-by-inspect is counted from body data frames that\n    inspect actually observed while forwarding the stream.\n  - This value may differ from the Content-Length header if the client cancels,\n    the upstream connection ends early, the upstream header is inaccurate, or the\n    response uses protocol framing where Content-Length is absent.\n  - Whole-body Roto response filters, response-body rewrites, completed filters,\n    and captured-response outbound HTTP payloads are skipped for this streamed body.\n  - Set stream_body_threshold_bytes = 0 to disable threshold-based streaming.\n")))))))))))
