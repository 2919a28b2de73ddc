-- ===== src/Outbound/Pool.antt =====
-- src/filters/http_client.rs: the jobs that wait in the channel of the pool.
use inspect.Common.{
  ◌≤◌, ◌≡◌, true, not, ◌&&◌, List, [], ◌∷◌, is_some, length, length-append, ltb, lookup, str-Eq,
  All, All-append, Bool-cases, inl, inr, arith,
}
use inspect.Filter.Types.{OutboundHttpJob}
use inspect.Outbound.{OutboundHttpClientPool, try_send, try_enqueue, enqueue_all}

-- The channel is not over its size, and every job in it is for a client that is configured.
pub record IsPool (pool : OutboundHttpClientPool) : Type 0 where
  pub size : length pool.queue ≤ pool.queue_size
  pub known : All (λ job. is_some (lookup job.client pool.configs) ≡ true) pool.queue

try_send-IsPool :
    (pool : OutboundHttpClientPool) (job : OutboundHttpJob)
    → is_some (lookup job.client pool.configs) ≡ true
    → IsPool pool
    → IsPool (try_send pool job)
unfolding try_send
try_send-IsPool pool job here h =
    elim (Bool-cases (not pool.closed && ltb (length pool.queue) pool.queue_size)) [
      | inl sent ↦ rw sent (record {
        size = ground (arith, sent, length-append pool.queue (job ∷ []));
        known = All-append _ pool.queue (job ∷ []) h.known (here, tt);
      })
      | inr full ↦ rw full h
    ]

try_enqueue-IsPool :
    (pool : OutboundHttpClientPool) (job : OutboundHttpJob)
    → IsPool pool
    → IsPool (try_enqueue pool job)
unfolding try_enqueue
try_enqueue-IsPool pool job h = elim (Bool-cases (is_some (lookup job.client pool.configs))) [
  | inl here ↦ rw here (try_send-IsPool pool job here h)
  | inr unknown ↦ rw unknown h
]

-- Whatever jobs the filters of a flow have, the channel of the pool stays within its size, and every job
-- in it is for a client that is configured.
pub enqueue_all-IsPool :
    (pool : OutboundHttpClientPool) (jobs : List OutboundHttpJob)
    → IsPool pool
    → IsPool (enqueue_all pool jobs)
unfolding enqueue_all
enqueue_all-IsPool pool [] h = h
enqueue_all-IsPool pool (job ∷ jobs) h =
    enqueue_all-IsPool (try_enqueue pool job) jobs (try_enqueue-IsPool pool job h)
