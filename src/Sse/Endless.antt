-- ===== src/Sse/Endless.antt =====
-- src/mitm/flow/sse_capture.rs on streams in which no event ends.
use inspect.Common.{
  ℕ, zero, suc, ◌-◌, ◌<◌, ◌≤◌, ◌≡◌, ◌≢◌, ◌⊎◌, refl, true, false, none, List, [], ◌∷◌, ◌++◌, inl,
  inr, Bytes, arith, length, length-append, Option-cases, ◌∙◌, ap, sym, subst, take, drop,
  take-take, append_assoc, append-nil,
}
use inspect.Sse.{
  SseCapture, event, partial, start, find_sse_event_end, capture_limit_reached,
  handle_oversized_incomplete_event, save_event_with_truncation, push, finish, truncation_notice,
  truncate_event,
}
use inspect.Sse.Find.{find_sse_event_end-append}
use inspect.Sse.Tail.{tail_of, find-tail_of-none}
use inspect.Sse.Loop.{with_buffer, loop_none, push-push_loop}
use inspect.Sse.Oversized.{cut, handle_stays, handle_cuts}
use inspect.Sse.Frames.{push_frames, concat}

find_sse_event_end-prefix :
    (x y : Bytes) → find_sse_event_end (x ++ y) ≡ none → find_sse_event_end x ≡ none
find_sse_event_end-prefix x y h = elim (Option-cases (find_sse_event_end x)) [
  | inl e ↦ e
  | inr (n, e) ↦ absurd (cc (h, find_sse_event_end-append x y e))
]

push-handle :
    (s : SseCapture) (bytes : Bytes)
    → s.finished ≡ false
    → capture_limit_reached s ≡ false
    → find_sse_event_end (s.buffer ++ bytes) ≡ none
    → push s bytes ≡ handle_oversized_incomplete_event (with_buffer s (s.buffer ++ bytes))
push-handle s bytes o l e =
    let fuel = length (s.buffer ++ bytes) in
    push-push_loop (suc fuel) s bytes o l (omega arith)
    ∙ loop_none fuel (with_buffer s (s.buffer ++ bytes)) e

-- While nothing is cut off, frames without an end of an event only make the buffer longer.
push_frames-kept :
    (s : SseCapture) (frames : List Bytes)
    → s.finished ≡ false
    → capture_limit_reached s ≡ false
    → (s.discarding_oversized_event ≡ true)
      ⊎ (length (s.buffer ++ concat frames) ≤ s.max_event_bytes)
    → find_sse_event_end (s.buffer ++ concat frames) ≡ none
    → push_frames s frames ≡ with_buffer s (s.buffer ++ concat frames)
unfolding push_frames capture_limit_reached
push_frames-kept s [] o l c e = ap (with_buffer s) (sym (append-nil s.buffer))
push_frames-kept s (frame ∷ frames) o l c e =
    let kept = with_buffer s (s.buffer ++ frame) in
    let whole : s.buffer ++ (frame ++ concat frames) ≡ (s.buffer ++ frame) ++ concat frames =
      sym (append_assoc s.buffer frame (concat frames)) in
    let none_in : find_sse_event_end ((s.buffer ++ frame) ++ concat frames) ≡ none =
      subst (λ x. find_sse_event_end x ≡ none) whole e in
    let small : (s.discarding_oversized_event ≡ true)
        ⊎ (length ((s.buffer ++ frame) ++ concat frames) ≤ s.max_event_bytes) =
      subst (λ x. (s.discarding_oversized_event ≡ true) ⊎ (length x ≤ s.max_event_bytes)) whole c in
    let early : (s.discarding_oversized_event ≡ true)
        ⊎ (length (s.buffer ++ frame) ≤ s.max_event_bytes) =
      elim small [
        | inl d ↦ inl d
        | inr le ↦ inr (omega (arith, length-append (s.buffer ++ frame) (concat frames)))
      ] in
    ap (λ u. push_frames u frames)
      (push-handle s frame o l
          (find_sse_event_end-prefix (s.buffer ++ frame) (concat frames) none_in)
        ∙ handle_stays kept early)
    ∙ push_frames-kept kept frames o l small none_in
    ∙ ap (with_buffer s) (sym whole)

push_frames-append :
    (s : SseCapture) (early late : List Bytes)
    → push_frames s (early ++ late) ≡ push_frames (push_frames s early) late
unfolding push_frames
push_frames-append s [] late = refl
push_frames-append s (frame ∷ early) late = push_frames-append (push s frame) early late

finish-with_buffer :
    (s : SseCapture) (bytes : Bytes)
    → s.finished ≡ false
    → capture_limit_reached s ≡ false
    → s.discarding_oversized_event ≡ false
    → bytes ≢ []
    → (finish (with_buffer s bytes)).tx
      ≡ s.tx ++ partial (truncate_event bytes s.max_event_bytes) ∷ []
unfolding finish capture_limit_reached
finish-with_buffer s [] o l d h = absurd (h refl)
finish-with_buffer s (c ∷ bytes) o l d h = ground arith

take_of_length_le : (n : ℕ) (x : Bytes) → length x ≤ n → take n x ≡ x
take_of_length_le zero [] h = refl
take_of_length_le zero (c ∷ x) h = absurd (omega arith)
take_of_length_le (suc n) [] h = refl
take_of_length_le (suc n) (c ∷ x) h = ap (◌∷◌ c) (take_of_length_le n x (omega arith))

module _ (max_events max_event_bytes : ℕ) (events : 0 < max_events)
    (bytes : 0 < max_event_bytes) where
  below : capture_limit_reached (start max_events max_event_bytes) ≡ false
  unfolding capture_limit_reached start
  below = ground arith

  -- A stream that is not empty, in which no event ends, and that is no longer than the limit, is sent
  -- as one partial message with all its bytes, in whatever frames it came. The truncation notice
  -- is put behind them, although nothing was cut off.
  pub finish-push_frames_partial :
      (frames : List Bytes)
      → concat frames ≢ []
      → length (concat frames) ≤ max_event_bytes
      → find_sse_event_end (concat frames) ≡ none
      → (finish (push_frames (start max_events max_event_bytes) frames)).tx
        ≡ partial (concat frames ++ truncation_notice max_event_bytes) ∷ []
  unfolding start truncate_event capture_limit_reached
  finish-push_frames_partial frames some_bytes short e =
      let s = start max_events max_event_bytes in
      ap (λ u. (finish u).tx) (push_frames-kept s frames refl below (inr short) e)
      ∙ finish-with_buffer s (concat frames) refl below refl some_bytes
      ∙ ap (λ x. partial (x ++ truncation_notice max_event_bytes) ∷ [])
          (take_of_length_le max_event_bytes (concat frames) short)

module _ (max_events max_event_bytes : ℕ) (events : 1 < max_events)
    (bytes : 0 < max_event_bytes) where
  -- Of a stream in which no event ends, the capture sends the head of `max_event_bytes` bytes as soon as
  -- a frame takes the stream beyond that length, and cuts the buffer to its last three bytes. Every byte
  -- of all later frames stays in the buffer, so it grows with the stream, beyond any limit.
  pub push_frames-endless :
      (early : List Bytes) (frame : Bytes) (late : List Bytes)
      → length (concat early) ≤ max_event_bytes
      → max_event_bytes < length (concat early ++ frame)
      → find_sse_event_end ((concat early ++ frame) ++ concat late) ≡ none
      → let end = push_frames (start max_events max_event_bytes) (early ++ (frame ∷ late)) in
        let head = concat early ++ frame in
        (end.tx ≡ event 1 (truncate_event head max_event_bytes) ∷ [])
        × (end.buffer ≡ drop (length head - 3) head ++ concat late)
  unfolding start push_frames capture_limit_reached save_event_with_truncation truncate_event
  push_frames-endless early frame late short over e =
      let s = start max_events max_event_bytes in
      let head = concat early ++ frame in
      let open_head = find_sse_event_end-prefix head (concat late) e in
      let below : capture_limit_reached s ≡ false = ground arith in
      let room : capture_limit_reached (cut (with_buffer s head)) ≡ false = ground arith in
      let first : push_frames s (early ++ (frame ∷ late))
          ≡ push_frames (cut (with_buffer s head)) late =
        push_frames-append s early (frame ∷ late)
        ∙ ap (λ u. push_frames (push u frame) late)
            (push_frames-kept s early refl below (inr short)
              (find_sse_event_end-prefix (concat early) frame open_head))
        ∙ ap (λ u. push_frames u late)
            (push-handle (with_buffer s (concat early)) frame refl below open_head
              ∙ handle_cuts (with_buffer s head) refl below over) in
      let same : push_frames s (early ++ (frame ∷ late))
          ≡ with_buffer (cut (with_buffer s head)) (tail_of head ++ concat late) =
        first
        ∙ push_frames-kept (cut (with_buffer s head)) late refl room (inl refl)
            (find-tail_of-none head (concat late) open_head e) in
      (
        ap (λ u. u.tx) same
            ∙ ap (λ x. event 1 (x ++ truncation_notice max_event_bytes) ∷ [])
                (take-take max_event_bytes max_event_bytes head (omega arith)),
        ap (λ u. u.buffer) same,
      )
