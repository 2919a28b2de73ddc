-- ===== src/Sse/Pending.antt =====
-- src/mitm/flow/sse_capture.rs: how much stays in the buffer between two frames.
use inspect.Common.{
  ℕ, zero, suc, ◌<◌, ◌≤◌, ◌≡◌, false, ◌++◌, inl, inr, Bytes, arith, length, Option-cases,
  Bool-cases, drop,
}
use inspect.Sse.{
  SseCapture, find_sse_event_end, capture_limit_reached, handle_oversized_incomplete_event,
  push_loop, push,
}
use inspect.Sse.Loop.{
  discarded, saved, with_buffer, loop_none, loop_discard, loop_stop, loop_save, drop_lt,
  push-push_loop,
}

handle-buffer_le :
    (s : SseCapture)
    → capture_limit_reached s ≡ false
    → (handle_oversized_incomplete_event s).discarding_oversized_event ≡ false
    → length (handle_oversized_incomplete_event s).buffer
      ≤ (handle_oversized_incomplete_event s).max_event_bytes
unfolding handle_oversized_incomplete_event capture_limit_reached
handle-buffer_le s l h = ground arith

push_loop-buffer_le :
    (f : ℕ) (s : SseCapture)
    → length s.buffer < f
    → capture_limit_reached s ≡ false
    → (push_loop f s).discarding_oversized_event ≡ false
    → length (push_loop f s).buffer ≤ (push_loop f s).max_event_bytes
unfolding capture_limit_reached
push_loop-buffer_le zero s q l h = absurd (omega arith)
push_loop-buffer_le (suc f) s q l h = elim (Option-cases (find_sse_event_end s.buffer)) [
  | inl e ↦ rw (loop_none f s e) (handle-buffer_le s l (rw (loop_none f s e) at h))
  | inr (n, e) ↦ elim (Bool-cases s.discarding_oversized_event) [
    | inl d ↦
        let same = loop_discard f s e d in
        rw same (push_loop-buffer_le f (discarded s n) (drop_lt f s e q) l (rw same at h))
    | inr d ↦ elim (Bool-cases (capture_limit_reached (saved s n))) [
      | inl full ↦ rw (loop_stop f s e d full) (omega arith)
      | inr more ↦
          let same = loop_save f s e d more in
          rw same (
            push_loop-buffer_le f (with_buffer (saved s n) (drop n s.buffer)) (drop_lt f s e q) more
              (rw same at h))
    ]
  ]
]

-- Unless an oversized event is being discarded, a push leaves at most `max_event_bytes` bytes behind.
pub push-buffer_le :
    (s : SseCapture) (bytes : Bytes)
    → s.finished ≡ false
    → capture_limit_reached s ≡ false
    → (push s bytes).discarding_oversized_event ≡ false
    → length (push s bytes).buffer ≤ (push s bytes).max_event_bytes
unfolding capture_limit_reached
push-buffer_le s bytes o l h =
    let fuel = suc (length (s.buffer ++ bytes)) in
    let same = push-push_loop fuel s bytes o l (omega arith) in
    rw same
      (push_loop-buffer_le fuel (with_buffer s (s.buffer ++ bytes)) (omega arith) l (rw same at h))
