-- ===== src/Sse/Frames.antt =====
-- The capture of src/mitm/flow/sse_capture.rs, and the frames into which a stream is cut.
use inspect.Common.{
  ℕ, zero, suc, ◌≤◌, ◌<◌, ◌≡◌, none, false, List, [], ◌∷◌, ◌++◌, inl, inr, Bytes, arith, length,
  Option-cases, Bool-cases, ◌∙◌, sym, ap, take, drop, take_of_append, drop_of_append, append_assoc,
  append-nil, leb, leb→le,
}
use inspect.Sse.{
  SseCapture, start, find_from, find_sse_event_end, capture_limit_reached, save_event,
  handle_oversized_incomplete_event, push_loop, push, finish,
}
use inspect.Sse.Find.{find_sse_event_end_bounds, find_sse_event_end-append}
use inspect.Sse.Loop.{
  discarded, saved, with_buffer, loop_none, loop_discard, loop_stop, loop_save, drop_lt,
  push-push_loop, push_at_limit, push_finished,
}
use inspect.Sse.Sent.{sent}
use inspect.Sse.Oversized.{handle_stays, handle_cuts, sent-cut}

save_event-with_buffer :
    (s : SseCapture) (x y bytes : Bytes)
    → with_buffer (save_event (with_buffer s x) bytes) y ≡ with_buffer (save_event s bytes) y
unfolding save_event
save_event-with_buffer s x y bytes = ground arith

limit-with_buffer :
    (s : SseCapture) (x bytes : Bytes)
    → capture_limit_reached (save_event (with_buffer s x) bytes)
      ≡ capture_limit_reached (save_event s bytes)
unfolding save_event capture_limit_reached
limit-with_buffer s x bytes = ground arith

finished-save_event : (s : SseCapture) (bytes : Bytes) → (save_event s bytes).finished ≡ s.finished
unfolding save_event
finished-save_event s bytes = ground arith

-- The loop on one frame, then a push of the next, against the loop on both.
module _ (b : Bytes) where
  both : SseCapture → SseCapture
  both s = with_buffer s (s.buffer ++ b)

  module _ (s : SseCapture) (n : ℕ) (h : n ≤ length s.buffer) where
    saved-both : (y : Bytes) → with_buffer (saved (both s) n) y ≡ with_buffer (saved s n) y
    unfolding both
    saved-both y =
        ap (λ x. with_buffer (save_event (both s) x) y) (take_of_append n s.buffer b h)
        ∙ save_event-with_buffer s (s.buffer ++ b) y (take n s.buffer)

    saved_limit : capture_limit_reached (saved (both s) n) ≡ capture_limit_reached (saved s n)
    unfolding both
    saved_limit =
        ap (λ x. capture_limit_reached (save_event (both s) x)) (take_of_append n s.buffer b h)
        ∙ limit-with_buffer s (s.buffer ++ b) (take n s.buffer)

  resume :
      (g : ℕ) (s : SseCapture)
      → s.finished ≡ false
      → capture_limit_reached s ≡ false
      → length (s.buffer ++ b) < g
      → find_sse_event_end s.buffer ≡ none
      → sent (push (handle_oversized_incomplete_event s) b) ≡ sent (push_loop g (both s))
  unfolding both
  resume g s o l h e = elim (Bool-cases s.discarding_oversized_event) [
    | inl d ↦
        ap (λ u. sent (push u b)) (handle_stays s (inl d)) ∙ ap sent (push-push_loop g s b o l h)
    | inr d ↦ elim (Bool-cases (leb (length s.buffer) s.max_event_bytes)) [
      | inl fits ↦
          ap (λ u. sent (push u b))
            (handle_stays s (inr (leb→le (length s.buffer) s.max_event_bytes fits)))
          ∙ ap sent (push-push_loop g s b o l h)
      | inr over ↦
          ap (λ u. sent (push u b)) (handle_cuts s d l (ground arith))
          ∙ sent-cut s b o l d e (ground arith) g h
    ]
  ]

  loop-split :
      (f g : ℕ) (s : SseCapture)
      → s.finished ≡ false
      → capture_limit_reached s ≡ false
      → length s.buffer < f
      → length (s.buffer ++ b) < g
      → sent (push (push_loop f s) b) ≡ sent (push_loop g (both s))
  unfolding both capture_limit_reached
  loop-split zero g s o l p q = absurd (omega arith)
  loop-split (suc f) zero s o l p q = absurd (omega arith)
  loop-split (suc f) (suc g) s o l p q = elim (Option-cases (find_sse_event_end s.buffer)) [
    | inl e ↦ ap (λ u. sent (push u b)) (loop_none f s e) ∙ resume (suc g) s o l q e
    | inr (n, e) ↦
        let e' = find_sse_event_end-append s.buffer b e in
        let bounds = find_sse_event_end_bounds s.buffer e in
        let rest : drop n (s.buffer ++ b) ≡ drop n s.buffer ++ b =
          drop_of_append n s.buffer b bounds.1 in
        let room = drop_lt g (both s) e' q in
        elim (Bool-cases s.discarding_oversized_event) [
          | inl d ↦
              ap (λ u. sent (push u b)) (loop_discard f s e d)
              ∙ loop-split f g (discarded s n) o l (drop_lt f s e p) (rw (← rest) room)
              ∙ ap sent (
                  sym (
                    loop_discard g (both s) e' d
                    ∙ ap (λ x. push_loop g (with_buffer (discarded s n) x)) rest))
          | inr d ↦ elim (Bool-cases (capture_limit_reached (saved s n))) [
            | inl full ↦
                ap (λ u. sent (push u b)) (loop_stop f s e d full)
                ∙ ap sent (push_at_limit (with_buffer (saved s n) []) b full)
                ∙ ap sent (
                    sym (
                      loop_stop g (both s) e' d (saved_limit s n bounds.1 ∙ full)
                      ∙ saved-both s n bounds.1 []))
            | inr more ↦
                ap (λ u. sent (push u b)) (loop_save f s e d more)
                ∙ loop-split f g (with_buffer (saved s n) (drop n s.buffer))
                    (finished-save_event s (take n s.buffer) ∙ o) more (drop_lt f s e p)
                    (rw (← rest) room)
                ∙ ap sent (
                    sym (
                      loop_save g (both s) e' d (saved_limit s n bounds.1 ∙ more)
                      ∙ ap (push_loop g) (saved-both s n bounds.1 (drop n (s.buffer ++ b)))
                      ∙ ap (λ x. push_loop g (with_buffer (saved s n) x)) rest))
          ]
        ]
  ]

-- Two pushes send what one push of both frames sends.
push-append : (s : SseCapture) (a b : Bytes) → sent (push (push s a) b) ≡ sent (push s (a ++ b))
unfolding both capture_limit_reached
push-append s a b = elim (Bool-cases s.finished) [
  | inl h ↦
      ap (λ u. sent (push u b)) (push_finished s a h)
      ∙ ap sent (push_finished s b h ∙ sym (push_finished s (a ++ b) h))
  | inr o ↦ elim (Bool-cases (capture_limit_reached s)) [
    | inl full ↦
        ap (λ u. sent (push u b)) (push_at_limit s a full)
        ∙ ap sent (push_at_limit s b full ∙ sym (push_at_limit s (a ++ b) full))
    | inr l ↦
        let t = with_buffer s (s.buffer ++ a) in
        let f = suc (length t.buffer) in
        let g = suc (length (t.buffer ++ b)) in
        let together : with_buffer s (s.buffer ++ (a ++ b)) ≡ with_buffer s (t.buffer ++ b) =
          ap (with_buffer s) (sym (append_assoc s.buffer a b)) in
        let enough : length (s.buffer ++ (a ++ b)) < g = rw (← append_assoc) (omega arith) in
        ap (λ u. sent (push u b)) (push-push_loop f s a o l (omega arith))
        ∙ loop-split b f g t o l (omega arith) (omega arith)
        ∙ ap sent (sym (push-push_loop g s (a ++ b) o l enough ∙ ap (push_loop g) together))
  ]
]

-- The frames of a response body, in the order in which they arrive.
unfoldable pub push_frames : SseCapture → List Bytes → SseCapture
push_frames s [] = s
push_frames s (frame ∷ frames) = push_frames (push s frame) frames

abbrev pub concat : List Bytes → Bytes
concat [] = []
concat (frame ∷ frames) = frame ++ concat frames

push_frames-cons :
    (s : SseCapture) (frame : Bytes) (frames : List Bytes)
    → sent (push_frames s (frame ∷ frames)) ≡ sent (push s (frame ++ concat frames))
unfolding push_frames
push_frames-cons s frame [] = rw append-nil
push_frames-cons s frame (next ∷ frames) =
    push_frames-cons (push s frame) next frames ∙ push-append s frame (next ++ concat frames)

-- Whatever the limits, and however a stream is cut into frames, the capture sends the writer task
-- the same messages, events and partial rest, as if the whole stream came in one frame.
pub push_frames-concat :
    (max_events max_event_bytes : ℕ) (frames : List Bytes)
    → (finish (push_frames (start max_events max_event_bytes) frames)).tx
      ≡ (finish (push (start max_events max_event_bytes) (concat frames))).tx
unfolding push_frames start push finish push_loop handle_oversized_incomplete_event
    find_sse_event_end find_from
push_frames-concat max_events max_event_bytes [] = ground arith
push_frames-concat max_events max_event_bytes (frame ∷ frames) =
    push_frames-cons (start max_events max_event_bytes) frame frames
