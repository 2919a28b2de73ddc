-- ===== src/Sse/Bounds.antt =====
-- The capture of src/mitm/flow/sse_capture.rs: the number, the size and the order of the events
-- it sends.
use inspect.Common.{
  ℕ, zero, suc, ◌+◌, ◌≤◌, ◌≡◌, refl, false, List, [], ◌∷◌, ◌++◌, inl, inr, Bytes, arith, length,
  length-append, length-take, Option-cases, Bool-cases, take, drop, ltb,
}
use inspect.Sse.{
  SseCapture, SseCaptureMessage, event, partial, start, truncation_notice, truncate_event,
  find_sse_event_end, capture_limit_reached, save_event, save_event_with_truncation,
  handle_oversized_incomplete_event, push_loop, push,
}
use inspect.Sse.Loop.{
  discarded, saved, with_buffer, loop_none, loop_discard, loop_stop, loop_save, push-push_loop,
  push_at_limit, push_finished,
}
use inspect.Sse.Frames.{push_frames}

-- The messages are events numbered from `n + 1` to `last`, none longer than the limit `m` and the notice.
abbrev pub IsNumbered : ℕ → ℕ → List SseCaptureMessage → ℕ → Type 0
IsNumbered m n [] last = n ≡ last
IsNumbered m n (event k bytes ∷ rest) last =
    (k ≡ n + 1) × (length bytes ≤ m + length (truncation_notice m)) × IsNumbered m (n + 1) rest last
IsNumbered m n (partial bytes ∷ rest) last = ⊥

IsNumbered-concat :
    (m n last : ℕ) (msgs : List SseCaptureMessage) (bytes : Bytes)
    → IsNumbered m n msgs last
    → length bytes ≤ m + length (truncation_notice m)
    → IsNumbered m n (msgs ++ event (last + 1) bytes ∷ []) (last + 1)
IsNumbered-concat m n last [] bytes h k = (omega arith, k, omega arith)
IsNumbered-concat m n last (event i b ∷ rest) bytes (e, l, h) k =
    (e, l, IsNumbered-concat m (n + 1) last rest bytes h k)
IsNumbered-concat m n last (partial b ∷ rest) bytes h k = absurd h

pub record IsBounded (s : SseCapture) : Type 0 where
  pub numbered : IsNumbered s.max_event_bytes 0 s.tx s.saved_events
  pub within : s.saved_events ≤ s.max_events

length-truncate_event :
    (bytes : Bytes) (m : ℕ) → length (truncate_event bytes m) ≤ m + length (truncation_notice m)
unfolding truncate_event
length-truncate_event bytes m =
    omega (arith, length-append (take m bytes) (truncation_notice m), length-take m bytes)

save_event_with_truncation-IsBounded :
    (s : SseCapture) (bytes : Bytes)
    → capture_limit_reached s ≡ false
    → IsBounded s
    → IsBounded (save_event_with_truncation s bytes)
unfolding capture_limit_reached save_event_with_truncation
save_event_with_truncation-IsBounded s bytes l h = record {
  numbered =
      IsNumbered-concat s.max_event_bytes 0 s.saved_events s.tx
        (truncate_event bytes s.max_event_bytes) h.numbered
        (length-truncate_event bytes s.max_event_bytes);
  within = ground arith;
}

save_event-IsBounded :
    (s : SseCapture) (bytes : Bytes)
    → capture_limit_reached s ≡ false
    → IsBounded s
    → IsBounded (save_event s bytes)
unfolding capture_limit_reached save_event
save_event-IsBounded s bytes l h = elim (Bool-cases (ltb s.max_event_bytes (length bytes))) [
  | inl long ↦ rw long (save_event_with_truncation-IsBounded s bytes l h)
  | inr fits ↦ rw fits (record {
    numbered =
        IsNumbered-concat s.max_event_bytes 0 s.saved_events s.tx bytes h.numbered (ground arith);
    within = ground arith;
  })
]

handle-IsBounded :
    (s : SseCapture)
    → capture_limit_reached s ≡ false
    → IsBounded s
    → IsBounded (handle_oversized_incomplete_event s)
unfolding handle_oversized_incomplete_event
handle-IsBounded s l h =
    ground (arith, save_event_with_truncation-IsBounded s (take s.max_event_bytes s.buffer) l h)

push_loop-IsBounded :
    (f : ℕ) (s : SseCapture)
    → capture_limit_reached s ≡ false
    → IsBounded s
    → IsBounded (push_loop f s)
unfolding push_loop capture_limit_reached
push_loop-IsBounded zero s l h = h
push_loop-IsBounded (suc f) s l h = elim (Option-cases (find_sse_event_end s.buffer)) [
  | inl e ↦ rw (loop_none f s e) (handle-IsBounded s l h)
  | inr (n, e) ↦
      let bounded = save_event-IsBounded s (take n s.buffer) l h in
      elim (Bool-cases s.discarding_oversized_event) [
        | inl d ↦ rw (loop_discard f s e d) (
            push_loop-IsBounded f (discarded s n) l
              (record { numbered = h.numbered; within = h.within }))
        | inr d ↦ elim (Bool-cases (capture_limit_reached (saved s n))) [
          | inl full ↦
              rw (loop_stop f s e d full)
                (record { numbered = bounded.numbered; within = bounded.within })
          | inr more ↦ rw (loop_save f s e d more) (
              push_loop-IsBounded f (with_buffer (saved s n) (drop n s.buffer)) more
                (record { numbered = bounded.numbered; within = bounded.within }))
        ]
      ]
]

limit_still :
    (s : SseCapture) (bytes : Bytes)
    → capture_limit_reached s ≡ false
    → capture_limit_reached (with_buffer s bytes) ≡ false
unfolding capture_limit_reached
limit_still s bytes h = h

push-IsBounded : (s : SseCapture) (bytes : Bytes) → IsBounded s → IsBounded (push s bytes)
push-IsBounded s bytes h = elim (Bool-cases s.finished) [
  | inl done ↦ rw (push_finished s bytes done) h
  | inr o ↦ elim (Bool-cases (capture_limit_reached s)) [
    | inl full ↦ rw (push_at_limit s bytes full) h
    | inr more ↦
        rw (push-push_loop (suc (length (s.buffer ++ bytes))) s bytes o more (omega arith)) (
          push_loop-IsBounded (suc (length (s.buffer ++ bytes))) (with_buffer s (s.buffer ++ bytes))
            (limit_still s (s.buffer ++ bytes) more)
            (record { numbered = h.numbered; within = h.within }))
  ]
]

push_frames-IsBounded :
    (s : SseCapture) (frames : List Bytes) → IsBounded s → IsBounded (push_frames s frames)
unfolding push_frames
push_frames-IsBounded s [] h = h
push_frames-IsBounded s (frame ∷ frames) h =
    push_frames-IsBounded (push s frame) frames (push-IsBounded s frame h)

-- Whatever is pushed, at most `max_events` events are sent, numbered from 1 on without a gap, each of
-- at most `max_event_bytes` bytes and the notice.
pub start-IsBounded :
    (max_events max_event_bytes : ℕ) (frames : List Bytes)
    → IsBounded (push_frames (start max_events max_event_bytes) frames)
unfolding start
start-IsBounded max_events max_event_bytes frames =
    push_frames-IsBounded (start max_events max_event_bytes) frames
      (record { numbered = refl; within = omega arith })
