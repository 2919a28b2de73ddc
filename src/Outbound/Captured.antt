-- ===== src/Outbound/Captured.antt =====
-- src/mitm/flow/dispatcher.rs, the captured bodies of outbound jobs, with the JSON captures of
-- src/filters/engine/json/capture.rs and build_response_head_text of src/mitm/flow/capture_service.rs. The
-- base64 encoder, `std::str::from_utf8`, `HeaderValue::to_str` and the text of a status are parameters; the
-- keys of an object are in ascending order, as serde_json keeps them.
use inspect.Common.{
  ℕ, Bool, false, Option, none, some, List, [], ◌∷◌, ◌++◌, map, Str, Bytes, codes, decimal, to_utf8,
  is_empty, unwrap_or, if◌then◌else◌,
}
use inspect.Filter.Types.{
  FilterHeader, FilterRequest, OutboundHttpJob, OutboundHttpBodySource, bytes_source,
  captured_request, captured_response, captured_request_json, captured_response_json,
  captured_flow_json,
}
use inspect.Filter.Patch.{HeaderMap}
use inspect.Filter.Encoding.{Decoders, normalized_content_type}
use inspect.Dispatch.{header_text}
use inspect.Json.{Value, null, bool, number, string, array, object, end}
use inspect.Json.Patch.{JsonLib, one_more, to_items}

-- What is known of a response when the jobs are resolved.
pub record ResolveInput : Type 0 where
  pub id : Str
  pub seq : ℕ
  pub flow_key : Str
  pub filter_request : FilterRequest
  pub upstream_status : Option ℕ
  pub elapsed_ms : ℕ
  pub status : ℕ
  pub version : Str
  pub headers : HeaderMap
  pub body : Bytes

unfoldable pub request_target : FilterRequest → Str
request_target req = if is_empty req.query then req.path else req.path ++ (b'?' ∷ req.query)

abbrev pub crlf : Str
crlf = 13 ∷ 10 ∷ []

unfoldable pub append_filter_headers : List FilterHeader → Str
append_filter_headers [] = []
append_filter_headers (header ∷ headers) =
    header.name ++ (codes ": " ++ (header.value ++ (crlf ++ append_filter_headers headers)))

abbrev pub sni_line : Option Str → Str
sni_line none = []
sni_line (some tls_sni) = codes "X-Inspect-TLS-SNI: " ++ (tls_sni ++ crlf)

unfoldable pub raw_filter_request_bytes : FilterRequest → Bytes
unfolding request_target append_filter_headers to_utf8
raw_filter_request_bytes req =
    to_utf8 (
      req.method
      ++ (codes " "
          ++ (request_target req
              ++ (codes " "
                  ++ (req.version
                      ++ (crlf
                          ++ (sni_line req.tls_sni
                              ++ (append_filter_headers req.headers ++ crlf))))))))
    ++ req.body.bytes

abbrev pub string_value : Option Str → Value
string_value none = null
string_value (some s) = string s

abbrev pub number_value : Option ℕ → Value
number_value none = null
number_value (some n) = number (decimal n)

abbrev pub filter_header_value : FilterHeader → Value
filter_header_value header =
    object (one_more "name" (string header.name) (one_more "value" (string header.value) end))

unfoldable pub json_filter_headers : List FilterHeader → Value
unfolding to_items
json_filter_headers headers = array (to_items (map filter_header_value headers))

module _ (from_utf8 : Bytes → Option Str) (base64 : Bytes → Str) where
  unfoldable pub json_body : Option Str → Option Str → Bool → Bytes → Value
  json_body content_type encoding truncated bytes =
      let content = from_utf8 bytes in
      object (
        one_more "base64" (elim content [ some s ↦ null | none ↦ string (base64 bytes) ])
          (one_more "content_type" (string_value content_type) (
            one_more "encoding" (string_value encoding) (
              one_more "text" (string_value content) (one_more "truncated" (bool truncated) end)))))

  unfoldable pub json_filter_request : FilterRequest → Value
  unfolding json_filter_headers json_body
  json_filter_request req = object (
      one_more "body"
        (json_body req.body.content_type req.body.encoding req.body.truncated req.body.bytes)
        (one_more "flow_key" (string req.flow_key) (
          one_more "headers" (json_filter_headers req.headers) (
            one_more "host" (string req.host) (
              one_more "id" (string req.id) (
                one_more "method" (string req.method) (
                  one_more "path" (string req.path) (
                    one_more "query" (string req.query) (
                      one_more "scheme" (string req.scheme) (
                        one_more "seq" (number (decimal req.seq)) (
                          one_more "tls_sni" (string_value req.tls_sni)
                            (one_more "version" (string req.version) end))))))))))))

  module _ (decoders : Decoders) (lib : JsonLib) (status_text : ℕ → Str) where
    open lib use {from_str, to_string}

    abbrev pub map_value : Str × Str → Value
    map_value entry = object (
        one_more "name" (string entry.0)
          (one_more "value" (string (unwrap_or (decoders.to_str entry.1) (base64 entry.1))) end))

    unfoldable pub json_header_map : HeaderMap → Value
    unfolding to_items
    json_header_map headers = array (to_items (map map_value headers))

    unfoldable pub json_filter_response : ResolveInput → Value
    unfolding json_header_map json_body normalized_content_type header_text
    json_filter_response input = object (
        one_more "body"
          (json_body (normalized_content_type decoders input.headers)
            (header_text decoders (codes "content-encoding") input.headers) false input.body)
          (one_more "elapsed_ms" (number (decimal input.elapsed_ms)) (
            one_more "headers" (json_header_map input.headers) (
              one_more "status" (number (decimal input.status)) (
                one_more "upstream_status" (number_value input.upstream_status)
                  (one_more "version" (string input.version) end))))))

    -- The captures are read back from their texts.
    abbrev pub reread : Value → Value
    reread v = unwrap_or (from_str (to_string v)) (object end)

    unfoldable pub json_filter_flow : ResolveInput → Value
    unfolding json_filter_request json_filter_response
    json_filter_flow input = object (
        one_more "flow_key" (string input.flow_key) (
          one_more "id" (string input.id) (
            one_more "request" (reread (json_filter_request input.filter_request)) (
              one_more "response" (reread (json_filter_response input))
                (one_more "seq" (number (decimal input.seq)) end)))))

    abbrev pub json_bytes : Value → Bytes
    json_bytes v = to_utf8 (to_string v)

    unfoldable pub head_lines : HeaderMap → Str
    head_lines [] = []
    head_lines (entry ∷ headers) =
        entry.0
        ++ (codes ": "
            ++ (unwrap_or (decoders.to_str entry.1) (codes "<binary>")
                ++ (crlf ++ head_lines headers)))

    unfoldable pub build_response_head_text : ResolveInput → Str
    unfolding head_lines
    build_response_head_text input =
        input.version
        ++ (codes " " ++ (status_text input.status ++ (crlf ++ (head_lines input.headers ++ crlf))))

    unfoldable pub raw_response_bytes : ResolveInput → Bytes
    unfolding build_response_head_text to_utf8
    raw_response_bytes input = to_utf8 (build_response_head_text input) ++ input.body

    unfoldable pub resolve_source : ResolveInput → OutboundHttpBodySource → Bytes
    unfolding raw_filter_request_bytes raw_response_bytes json_filter_request json_filter_response
        json_filter_flow to_utf8
    resolve_source input (bytes_source bytes) = bytes
    resolve_source input captured_request = raw_filter_request_bytes input.filter_request
    resolve_source input captured_response = raw_response_bytes input
    resolve_source input captured_request_json =
        json_bytes (json_filter_request input.filter_request)
    resolve_source input captured_response_json = json_bytes (json_filter_response input)
    resolve_source input captured_flow_json = json_bytes (json_filter_flow input)

    unfoldable pub resolve_outbound_http_job : ResolveInput → OutboundHttpJob → OutboundHttpJob
    unfolding resolve_source
    resolve_outbound_http_job input job = record job {
      body = bytes_source (resolve_source input job.body);
    }

    unfoldable pub resolve_outbound_http_jobs :
        ResolveInput → List OutboundHttpJob → List OutboundHttpJob
    unfolding resolve_outbound_http_job
    resolve_outbound_http_jobs input jobs = map (resolve_outbound_http_job input) jobs
