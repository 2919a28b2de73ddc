-- ===== src/Outbound.antt =====
-- src/filters/http_client.rs, and in src/mitm/flow/dispatcher.rs how the jobs of filters get there. The
-- request builder of the HTTP library is a parameter, none for a request that it refuses. The channel of the
-- pool is the list of the jobs that wait in it.
pub mod Captured
pub mod Pool
pub mod Address
mod Tests
use inspect.Common.{
  ℕ, Bool, true, false, not, ◌&&◌, ◌||◌, Option, none, some, List, [], ◌∷◌, ◌++◌, Str, Bytes, codes,
  is_empty, is_some, length, ltb, lookup, str-Eq, starts_with, ◌==◌, if◌then◌else◌, Result, ok, err,
}
use inspect.Filter.Types.{
  FilterHeader, OutboundHttpJob, OutboundHttpBodySource, bytes_source, captured_request,
  captured_response, captured_request_json, captured_response_json, captured_flow_json,
}

pub record OutboundHttpPoolConfig : Type 0 where
  pub base_url : Str
  pub timeout_ms : ℕ

pub record OutboundHttpClientPool : Type 0 where
  pub configs : List (Str × OutboundHttpPoolConfig)
  pub queue : List OutboundHttpJob
  pub queue_size : ℕ
  pub closed : Bool

unfoldable pub new_pool : List (Str × OutboundHttpPoolConfig) → ℕ → OutboundHttpClientPool
new_pool configs queue_size = record {
  configs = configs;
  queue = [];
  queue_size = queue_size;
  closed = false;
}

unfoldable pub try_send : OutboundHttpClientPool → OutboundHttpJob → OutboundHttpClientPool
try_send pool job =
    if not pool.closed && ltb (length pool.queue) pool.queue_size
    then record pool { queue = pool.queue ++ (job ∷ []) }
    else pool

unfoldable pub try_enqueue : OutboundHttpClientPool → OutboundHttpJob → OutboundHttpClientPool
unfolding lookup try_send
try_enqueue pool job = if is_some (lookup job.client pool.configs) then try_send pool job else pool

unfoldable pub enqueue_all : OutboundHttpClientPool → List OutboundHttpJob → OutboundHttpClientPool
unfolding try_enqueue
enqueue_all pool [] = pool
enqueue_all pool (job ∷ jobs) = enqueue_all (try_enqueue pool job) jobs

-- Without a pool the jobs are dropped.
unfoldable pub dispatch_outbound_http :
    Option OutboundHttpClientPool → List OutboundHttpJob → Option OutboundHttpClientPool
unfolding enqueue_all
dispatch_outbound_http none jobs = none
dispatch_outbound_http (some pool) jobs = some (enqueue_all pool jobs)

unfoldable pub trim_start_slashes : Str → Str
trim_start_slashes [] = []
trim_start_slashes (c ∷ s) = let rest = trim_start_slashes s in if c == b'/' then rest else c ∷ s

unfoldable pub trim_end_slashes : Str → Str
trim_end_slashes [] = []
trim_end_slashes (c ∷ s) =
    let rest = trim_end_slashes s in
    if is_empty rest then (if c == b'/' then [] else c ∷ []) else c ∷ rest

unfoldable pub outbound_url : Str → Str → Str
unfolding starts_with trim_start_slashes trim_end_slashes
outbound_url base_url path =
    if starts_with (codes "http://") path || starts_with (codes "https://") path
    then path
    else trim_end_slashes base_url ++ (b'/' ∷ trim_start_slashes path)

pub data OutboundError : Type 0 where
  unresolved_body_source : OutboundError
  refused : OutboundError

abbrev pub resolved_body : OutboundHttpBodySource → Option Bytes
resolved_body (bytes_source bytes) = some bytes
resolved_body _ = none

module _ {Request : Type 0} (build : Str → Str → List FilterHeader → Bytes → Option Request) where
  unfoldable pub build_outbound_request :
      OutboundHttpPoolConfig → OutboundHttpJob → Result OutboundError Request
  unfolding outbound_url
  build_outbound_request config job = elim (resolved_body job.body) [
    | none ↦ err unresolved_body_source
    | some bytes ↦
        elim (build job.method (outbound_url config.base_url job.path) job.headers bytes) [
          | none ↦ err refused
          | some req ↦ ok req
        ]
  ]

  -- One round of the worker: the request that is sent, with its time-out in milliseconds.
  unfoldable pub worker_round :
      List (Str × OutboundHttpPoolConfig) → OutboundHttpJob → Option (Request × ℕ)
  unfolding lookup build_outbound_request
  worker_round configs job = elim (lookup job.client configs) [
    | none ↦ none
    | some config ↦ elim (build_outbound_request config job) [
      | err e ↦ none
      | ok req ↦ some (req, config.timeout_ms)
    ]
  ]
