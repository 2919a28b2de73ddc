-- ===== src/Sse/Tests.antt =====
-- Runs of the capture on small streams, after the tests of src/mitm/flow/sse_capture.rs, and the
-- theorems about it at such inputs.
use inspect.Common.{
  ◌≤◌, ◌≡◌, refl, none, some, List, [], ◌∷◌, ◌++◌, Bytes, codes, arith, length, decimal,
  decimal_padded, starts_with,
}
use inspect.Sse.{
  SseCapture, event, partial, start, truncation_notice, truncate_event, find_sse_event_end,
  push_loop, push, finish, capture_limit_reached, save_event, handle_oversized_incomplete_event,
  separator_at, find_from,
}
use inspect.Sse.Frames.{push_frames, concat, push_frames-concat}
use inspect.Sse.Bounds.{IsBounded, start-IsBounded}
use inspect.Sse.Pending.{push-buffer_le}
use inspect.Sse.Endless.{finish-push_frames_partial, push_frames-endless}
use inspect.Sse.Loop.{push_loop_fuel}
use inspect.Sse.Writer.{event_file}

finds_ends :
    (find_sse_event_end (codes "data: hello\n\n") ≡ some 13)
    × (find_sse_event_end (codes "data: hello\r\n\r\n") ≡ some 15)
    × (find_sse_event_end (codes "data: hello\r\n\n") ≡ some 14)
    × (find_sse_event_end (codes "data: hello\r\r") ≡ some 13)
    × (find_sse_event_end (codes "data: hello\n") ≡ none)
unfolding find_sse_event_end find_from separator_at starts_with
finds_ends = (refl, refl, refl, refl, refl)

abbrev split_crlf : List Bytes
split_crlf = codes "event: a\r\n\r" ∷ codes "\ndata: b" ∷ []

captures_split_crlf :
    (finish (push_frames (start 100 1024) split_crlf)).tx
    ≡ event 1 (codes "event: a\r\n\r\n")
      ∷ partial (codes "data: b\n<< inspect SSE event capture truncated: max_event_bytes=1024 >>\n")
      ∷ []
unfolding finish push_frames push start push_loop find_sse_event_end find_from separator_at
    starts_with capture_limit_reached save_event handle_oversized_incomplete_event truncate_event
    truncation_notice decimal
captures_split_crlf = refl

-- An oversized event, whose separator is split between two frames.
abbrev oversized : List Bytes
oversized = codes "data: this" ∷ codes " is large\n" ∷ codes "\nid: 1\n\n" ∷ []

push_frames-concat_example :
    (finish (push_frames (start 2 8) oversized)).tx
    ≡ (finish (push (start 2 8) (concat oversized))).tx
push_frames-concat_example = push_frames-concat 2 8 oversized

start-IsBounded_example : IsBounded (push_frames (start 2 8) oversized)
start-IsBounded_example = start-IsBounded 2 8 oversized

push-buffer_le_example :
    length (push (start 2 8) (codes "a\n\nb")).buffer
    ≤ (push (start 2 8) (codes "a\n\nb")).max_event_bytes
unfolding push start push_loop find_sse_event_end find_from separator_at starts_with
    capture_limit_reached save_event handle_oversized_incomplete_event
push-buffer_le_example = push-buffer_le (start 2 8) (codes "a\n\nb") refl refl refl

push_frames-endless_example :
    let end =
      push_frames
        (start 2 4)
        ((codes "ab" ∷ []) ++ (codes "cdef" ∷ codes "ghi" ∷ codes "j" ∷ [])) in
    (end.tx ≡ event 1 (truncate_event (codes "abcdef") 4) ∷ [])
    × (end.buffer ≡ codes "def" ++ codes "ghij")
unfolding find_sse_event_end find_from separator_at starts_with
push_frames-endless_example =
    push_frames-endless 2 4 (omega arith) (omega arith) (codes "ab" ∷ []) (codes "cdef")
      (codes "ghi" ∷ codes "j" ∷ []) (omega arith) (omega arith) refl

finish-push_frames_partial_example :
    (finish (push_frames (start 2 8) (codes "id" ∷ codes ": 1\n" ∷ []))).tx
    ≡ partial (codes "id: 1\n" ++ truncation_notice 8) ∷ []
unfolding find_sse_event_end find_from separator_at starts_with
finish-push_frames_partial_example =
    finish-push_frames_partial 2 8 (omega arith) (omega arith) (codes "id" ∷ codes ": 1\n" ∷ [])
      (λ e. cc) (omega arith) refl

abbrev unfinished : SseCapture
unfinished = record (start 2 8) { buffer = codes "id: 1\n" }

push_loop_fuel_example : push_loop 9 unfinished ≡ push_loop 20 unfinished
push_loop_fuel_example = push_loop_fuel 9 20 unfinished (omega arith) (omega arith)

names_with_three_digits :
    (event_file 7 ≡ codes "response.body.007") × (event_file 1234 ≡ codes "response.body.1234")
unfolding event_file decimal_padded
names_with_three_digits = (refl, refl)
