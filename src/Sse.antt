-- ===== src/Sse.antt =====
-- src/mitm/flow/sse_capture.rs: the capture of a text/event-stream response. `tx` lists the messages
-- sent to the writer task, the oldest first; what the task does with them is in Sse/Writer.
mod Find
mod Tail
mod Loop
mod Sent
mod Oversized
mod Frames
mod Tests
mod Pending
mod Endless
mod Writer
mod Bounds
use inspect.Common.{
  ℕ, zero, suc, ◌+◌, ◌-◌, Bool, true, false, not, ◌||◌, Option, none, some, List, [], ◌∷◌, ◌++◌,
  Bytes, codes, decimal, length, is_empty, take, drop, starts_with, leb, ltb, ◌==◌, if◌then◌else◌,
}

pub data SseCaptureMessage : Type 0 where
  event : ℕ → Bytes → SseCaptureMessage
  partial : Bytes → SseCaptureMessage

pub record SseCapture : Type 0 where
  pub tx : List SseCaptureMessage
  pub buffer : Bytes
  pub max_events : ℕ
  pub max_event_bytes : ℕ
  pub saved_events : ℕ
  pub discarding_oversized_event : Bool
  pub finished : Bool

-- The state that `start` returns.
unfoldable pub start : ℕ → ℕ → SseCapture
start max_events max_event_bytes = record {
  tx = [];
  buffer = [];
  max_events = max_events;
  max_event_bytes = max_event_bytes;
  saved_events = 0;
  discarding_oversized_event = false;
  finished = false;
}

unfoldable pub truncation_notice : ℕ → Bytes
truncation_notice max_event_bytes =
    codes "\n<< inspect SSE event capture truncated: max_event_bytes="
    ++ (decimal max_event_bytes ++ codes " >>\n")

unfoldable pub truncate_event : Bytes → ℕ → Bytes
truncate_event bytes max_event_bytes =
    take max_event_bytes bytes ++ truncation_notice max_event_bytes

-- The four separators in the order of the tests, each with its length.
unfoldable pub separator_at : Bytes → Option ℕ
separator_at remaining =
    if starts_with (13 ∷ 10 ∷ 13 ∷ 10 ∷ []) remaining
    then some 4
    else if starts_with (13 ∷ 10 ∷ 10 ∷ []) remaining
    then some 3
    else if starts_with (10 ∷ 10 ∷ []) remaining || starts_with (13 ∷ 13 ∷ []) remaining
    then some 2
    else none

-- `find_sse_event_end` from `index` on, over the bytes that remain there.
unfoldable pub find_from : ℕ → Bytes → Option ℕ
find_from index [] = none
find_from index (c ∷ rest) =
    let later = find_from (index + 1) rest in
    elim (separator_at (c ∷ rest)) [ some n ↦ some (index + n) | none ↦ later ]

unfoldable pub find_sse_event_end : Bytes → Option ℕ
find_sse_event_end bytes = find_from 0 bytes

unfoldable pub capture_limit_reached : SseCapture → Bool
capture_limit_reached s =
    s.max_events == 0 || s.max_event_bytes == 0 || leb s.max_events s.saved_events

unfoldable pub save_event_with_truncation : SseCapture → Bytes → SseCapture
save_event_with_truncation s bytes = record s {
  saved_events = s.saved_events + 1;
  tx = s.tx ++ event (s.saved_events + 1) (truncate_event bytes s.max_event_bytes) ∷ [];
}

unfoldable pub save_event : SseCapture → Bytes → SseCapture
unfolding save_event_with_truncation
save_event s bytes =
    if ltb s.max_event_bytes (length bytes) then save_event_with_truncation s bytes else record s {
      saved_events = s.saved_events + 1;
      tx = s.tx ++ event (s.saved_events + 1) bytes ∷ [];
    }

unfoldable pub handle_oversized_incomplete_event : SseCapture → SseCapture
unfolding save_event_with_truncation
handle_oversized_incomplete_event s =
    if s.discarding_oversized_event || s.max_event_bytes == 0
    then s
    else if leb (length s.buffer) s.max_event_bytes
    then s
    else record (save_event_with_truncation s (take s.max_event_bytes s.buffer)) {
      discarding_oversized_event = true;
      buffer = drop (length s.buffer - 3) s.buffer;
    }

-- The loop of `push`. Each round takes at least two bytes off the buffer.
unfoldable pub push_loop : ℕ → SseCapture → SseCapture
push_loop zero s = s
push_loop (suc fuel) s = elim (find_sse_event_end s.buffer) [
  | none ↦ handle_oversized_incomplete_event s
  | some event_end ↦ elim s.discarding_oversized_event [
    | true ↦
        push_loop fuel
          (record s { buffer = drop event_end s.buffer; discarding_oversized_event = false })
    | false ↦ elim (capture_limit_reached (save_event s (take event_end s.buffer))) [
      | true ↦ record (save_event s (take event_end s.buffer)) { buffer = [] }
      | false ↦
          push_loop fuel
            (record (save_event s (take event_end s.buffer)) { buffer = drop event_end s.buffer })
    ]
  ]
]

unfoldable pub push : SseCapture → Bytes → SseCapture
push s bytes =
    if s.finished || capture_limit_reached s
    then s
    else push_loop (suc (length (s.buffer ++ bytes))) (record s { buffer = s.buffer ++ bytes })

unfoldable pub finish : SseCapture → SseCapture
finish s =
    if s.finished
    then s
    else if is_empty s.buffer || s.discarding_oversized_event || capture_limit_reached s
    then record s { finished = true }
    else record s {
      finished = true;
      buffer = [];
      tx = s.tx ++ partial (truncate_event s.buffer s.max_event_bytes) ∷ [];
    }
