-- ===== src/Outbound/Tests.antt =====
-- src/filters/http_client.rs on concrete jobs.
use inspect.Common.{
  ℕ, ◌≡◌, refl, false, Option, none, some, List, [], ◌∷◌, ◌++◌, Str, Bytes, codes, ends_with_char,
  starts_with, lookup, str_eq, str-Eq, arith,
}
use inspect.Filter.Types.{
  FilterHeader, FilterRequest, OutboundHttpJob, OutboundHttpBodySource, bytes_source,
  captured_request,
}
use inspect.Filter.Encoding.{Decoders}
use inspect.Json.Codec.{coded_lib}
use inspect.Outbound.{
  OutboundHttpPoolConfig, OutboundHttpClientPool, enqueue_all, outbound_url, build_outbound_request,
  worker_round, trim_start_slashes, trim_end_slashes,
}
use inspect.Outbound.Captured.{ResolveInput, resolve_outbound_http_job, resolve_source}
use inspect.Outbound.Pool.{IsPool, enqueue_all-IsPool}
use inspect.Outbound.Address.{AreSlashes, outbound_url-joined}

abbrev config : OutboundHttpPoolConfig
config = record { base_url = codes "https://hooks.example/"; timeout_ms = 5000 }

abbrev job : Str → OutboundHttpBodySource → OutboundHttpJob
job client body = record {
  client = client;
  method = codes "POST";
  path = codes "//in";
  headers = [];
  body = body;
}

abbrev jobs : List OutboundHttpJob
jobs =
    job (codes "hooks") captured_request
    ∷ job (codes "other") captured_request
    ∷ job (codes "hooks") (bytes_source [])
    ∷ []

abbrev pool : OutboundHttpClientPool
pool = record { configs = (codes "hooks", config) ∷ []; queue = []; queue_size = 1; closed = false }

enqueue_all-IsPool_example : IsPool (enqueue_all pool jobs)
enqueue_all-IsPool_example =
    enqueue_all-IsPool pool jobs (record { size = omega arith; known = tt })

outbound_url-joined_example :
    (base : Str) × (rest : Str) × (left : Str) × (right : Str) × (outbound_url
        (codes "https://hooks.example/")
        (codes "//in")
      ≡ base ++ (b'/' ∷ rest))
    × (codes "https://hooks.example/" ≡ base ++ left)
    × (codes "//in" ≡ right ++ rest)
    × AreSlashes left
    × AreSlashes right
    × (ends_with_char b'/' base ≡ false)
    × (starts_with (codes "/") rest ≡ false)
unfolding starts_with
outbound_url-joined_example =
    outbound_url-joined (codes "https://hooks.example/") (codes "//in") refl

-- A path that is an address itself is used as it is, whatever the client's address.
any_address :
    outbound_url (codes "https://hooks.example/") (codes "http://127.0.0.1/x")
    ≡ codes "http://127.0.0.1/x"
unfolding outbound_url starts_with
any_address = refl

abbrev always : Str → Str → List FilterHeader → Bytes → Option Str
always method uri headers body = some uri

abbrev no_decoders : Decoders
no_decoders = record { to_str = some; gzip = some; deflate = some; brotli = some; zstd = some }

abbrev a_request : FilterRequest
a_request = record {
  id = codes "1";
  seq = 1;
  flow_key = [];
  method = codes "GET";
  scheme = codes "https";
  host = codes "example.com";
  path = codes "/";
  query = [];
  version = codes "HTTP/1.1";
  headers = [];
  body = record {
    bytes = [];
    text = none;
    content_type = none;
    encoding = none;
    truncated = false;
  };
  tls_sni = none;
}

abbrev input : ResolveInput
input = record {
  id = codes "1";
  seq = 1;
  flow_key = [];
  filter_request = a_request;
  upstream_status = some 200;
  elapsed_ms = 3;
  status = 200;
  version = codes "HTTP/1.1";
  headers = [];
  body = [];
}

abbrev same_text : Bytes → Str
same_text bytes = bytes

abbrev ok_text : ℕ → Str
ok_text status = codes "200 OK"

resolved_job_is_sent :
    worker_round always pool.configs (
      resolve_outbound_http_job some same_text no_decoders coded_lib ok_text input
        (job (codes "hooks") captured_request))
    ≡ some (codes "https://hooks.example/in", 5000)
unfolding worker_round build_outbound_request resolve_outbound_http_job resolve_source outbound_url
    trim_start_slashes trim_end_slashes starts_with lookup str_eq
resolved_job_is_sent = refl

unresolved_job_is_dropped :
    worker_round always pool.configs (job (codes "hooks") captured_request) ≡ none
unfolding worker_round build_outbound_request lookup str_eq
unresolved_job_is_dropped = refl
