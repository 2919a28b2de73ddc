-- ===== src/Sse/Sent.antt =====
-- What the writer task receives in the end, in two cases where nothing partial is left to send.
use inspect.Common.{◌≡◌, true, List, arith}
use inspect.Sse.{SseCapture, SseCaptureMessage, capture_limit_reached, finish}

-- All that the writer task has received once the capture is finished.
abbrev pub sent : SseCapture → List SseCaptureMessage
sent s = (finish s).tx

pub sent_at_limit : (s : SseCapture) → capture_limit_reached s ≡ true → sent s ≡ s.tx
unfolding finish
sent_at_limit s l = ground arith

pub sent_while_discarding : (s : SseCapture) → s.discarding_oversized_event ≡ true → sent s ≡ s.tx
unfolding finish
sent_while_discarding s d = ground arith
