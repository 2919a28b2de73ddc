-- ===== src/Sse/Writer.antt =====
-- The task that `SseCapture::start` spawns: a file for each message, named after its number. Whether a
-- write succeeds is the file system's answer, `writes`, for the file's name in the flow's directory.
use inspect.Common.{
  ℕ, zero, suc, ◌+◌, ◌-◌, ◌*◌, ◌<◌, ◌≡◌, refl, Bool, List, [], ◌∷◌, ◌++◌, Str, Bytes, codes, arith,
  length, decimal, decimal_padded, decimal_from, replicate, Bool-cases, inl, inr, if◌then◌else◌, ap,
  ◌∙◌, sym, ltb, ◌/◌, ◌%◌, drop,
}
use inspect.Sse.{SseCaptureMessage, event, partial}

unfoldable pub capture_marker_file : Str
capture_marker_file = codes "response.body.sse"

unfoldable pub capture_partial_file : Str
capture_partial_file = codes "response.body.partial"

abbrev capture_marker_text : Bytes
capture_marker_text = codes "<SSE stream; events are stored in response.body.NNN>\n"

unfoldable pub event_file : ℕ → Str
event_file sequence = codes "response.body." ++ decimal_padded 3 sequence

unfoldable pub message_file : SseCaptureMessage → Str × Bytes
message_file (event sequence bytes) = (event_file sequence, bytes)
message_file (partial bytes) = (capture_partial_file, bytes)

module _ (writes : Str → Bool) where
  -- The files written for the messages received, a failed write logged and skipped.
  unfoldable pub write_messages : List SseCaptureMessage → List (Str × Bytes)
  write_messages [] = []
  write_messages (m ∷ rest) =
      let later = write_messages rest in
      if writes (message_file m).0 then message_file m ∷ later else later

  -- The whole task: without its marker file the capture writes nothing.
  unfoldable pub run_writer : List SseCaptureMessage → List (Str × Bytes)
  run_writer messages =
      if writes capture_marker_file
      then (capture_marker_file, capture_marker_text) ∷ write_messages messages
      else []

-- The number that a run of digits stands for, behind the digits already read.
value_from : ℕ → Str → ℕ
value_from acc [] = acc
value_from acc (c ∷ s) = value_from (acc * 10 + (c - 48)) s

value_from-decimal_from :
    (fuel n : ℕ) (acc : Str) → n < fuel → value_from 0 (decimal_from fuel n acc) ≡ value_from n acc
unfolding value_from decimal_from
value_from-decimal_from zero n acc h = absurd (omega arith)
value_from-decimal_from (suc fuel) n acc h = elim (Bool-cases (ltb n 10)) [
  | inl small ↦ rw small (ap (λ k. value_from k acc) (omega arith))
  | inr large ↦
      let shorter : n / 10 < fuel = ground arith in
      let joined : n / 10 * 10 + (48 + n % 10 - 48) ≡ n = omega arith in
      rw (large, decimal_from)
        (value_from-decimal_from fuel (n / 10) ((48 + n % 10) ∷ acc) shorter
          ∙ ap (λ k. value_from k acc) joined)
]

value_from-decimal : (n : ℕ) → value_from 0 (decimal n) ≡ n
unfolding decimal value_from
value_from-decimal n = value_from-decimal_from (suc n) n [] (omega arith)

value_from-zeros : (k : ℕ) (s : Str) → value_from 0 (replicate k 48 ++ s) ≡ value_from 0 s
unfolding value_from
value_from-zeros zero s = refl
value_from-zeros (suc k) s = value_from-zeros k s

value_from-decimal_padded : (w n : ℕ) → value_from 0 (decimal_padded w n) ≡ n
unfolding decimal_padded
value_from-decimal_padded w n =
    value_from-zeros (w - length (decimal n)) (decimal n) ∙ value_from-decimal n

-- Events with different numbers go to different files, also beyond three digits.
event_file-injective : (i j : ℕ) → event_file i ≡ event_file j → i ≡ j
unfolding event_file
event_file-injective i j h =
    let same : decimal_padded 3 i ≡ decimal_padded 3 j = ap (drop 14) h in
    sym (value_from-decimal_padded 3 i) ∙ ap (value_from 0) same ∙ value_from-decimal_padded 3 j
