-- ===== src/Sse/Loop.antt =====
-- The rounds of the loop of `push`, one lemma for each way a round goes, and the fuel it takes.
use inspect.Common.{
  ℕ, zero, suc, ◌<◌, ◌≡◌, none, some, true, false, [], ◌++◌, inl, inr, Bytes, arith, length,
  length-drop, Option-cases, Bool-cases, ◌∙◌, sym, take, drop,
}
use inspect.Sse.{
  SseCapture, find_sse_event_end, capture_limit_reached, save_event,
  handle_oversized_incomplete_event, push_loop, push,
}
use inspect.Sse.Find.{find_sse_event_end_bounds}

-- The state behind a round that takes an event off, without and with saving it.
abbrev pub discarded : SseCapture → ℕ → SseCapture
discarded s n = record s { buffer = drop n s.buffer; discarding_oversized_event = false }

abbrev pub saved : SseCapture → ℕ → SseCapture
saved s n = save_event s (take n s.buffer)

abbrev pub with_buffer : SseCapture → Bytes → SseCapture
with_buffer s bytes = record s { buffer = bytes }

module _ (f : ℕ) (s : SseCapture) where
  pub loop_none :
      find_sse_event_end s.buffer ≡ none → push_loop (suc f) s ≡ handle_oversized_incomplete_event s
  unfolding push_loop
  loop_none e = rw (e, push_loop)

  module _ {n : ℕ} (e : find_sse_event_end s.buffer ≡ some n) where
    pub loop_discard :
        s.discarding_oversized_event ≡ true → push_loop (suc f) s ≡ push_loop f (discarded s n)
    unfolding push_loop
    loop_discard d = rw (e, d, push_loop)

    pub loop_stop :
        s.discarding_oversized_event ≡ false
        → capture_limit_reached (saved s n) ≡ true
        → push_loop (suc f) s ≡ with_buffer (saved s n) []
    unfolding push_loop
    loop_stop d l = ground arith

    pub loop_save :
        s.discarding_oversized_event ≡ false
        → capture_limit_reached (saved s n) ≡ false
        → push_loop (suc f) s ≡ push_loop f (with_buffer (saved s n) (drop n s.buffer))
    unfolding push_loop
    loop_save d l = ground arith

    pub drop_lt : {k : ℕ} → length s.buffer < suc k → length (drop n s.buffer) < k
    drop_lt h = omega (arith, length-drop n s.buffer, find_sse_event_end_bounds s.buffer e)

-- Fuel above the length of the buffer is enough: more gives the same state.
pub push_loop_fuel :
    (f g : ℕ) (s : SseCapture)
    → length s.buffer < f
    → length s.buffer < g
    → push_loop f s ≡ push_loop g s
push_loop_fuel zero g s p q = absurd (omega arith)
push_loop_fuel (suc f) zero s p q = absurd (omega arith)
push_loop_fuel (suc f) (suc g) s p q = elim (Option-cases (find_sse_event_end s.buffer)) [
  | inl e ↦ loop_none f s e ∙ sym (loop_none g s e)
  | inr (n, e) ↦ elim (Bool-cases s.discarding_oversized_event) [
    | inl d ↦
        loop_discard f s e d
        ∙ push_loop_fuel f g (discarded s n) (drop_lt f s e p) (drop_lt g s e q)
        ∙ sym (loop_discard g s e d)
    | inr d ↦ elim (Bool-cases (capture_limit_reached (saved s n))) [
      | inl l ↦ loop_stop f s e d l ∙ sym (loop_stop g s e d l)
      | inr l ↦
          loop_save f s e d l
          ∙ push_loop_fuel f g (with_buffer (saved s n) (drop n s.buffer)) (drop_lt f s e p)
              (drop_lt g s e q)
          ∙ sym (loop_save g s e d l)
    ]
  ]
]

-- A push on a capture that still records runs the loop, with any fuel that is enough.
pub push-push_loop :
    (g : ℕ) (s : SseCapture) (b : Bytes)
    → s.finished ≡ false
    → capture_limit_reached s ≡ false
    → length (s.buffer ++ b) < g
    → push s b ≡ push_loop g (with_buffer s (s.buffer ++ b))
unfolding push
push-push_loop g s b o l h = ground (
  arith,
  push_loop_fuel (suc (length (s.buffer ++ b))) g (with_buffer s (s.buffer ++ b)) (omega arith) h,
)

pub push_at_limit : (s : SseCapture) (b : Bytes) → capture_limit_reached s ≡ true → push s b ≡ s
unfolding push
push_at_limit s b l = ground arith

pub push_finished : (s : SseCapture) (b : Bytes) → s.finished ≡ true → push s b ≡ s
unfolding push
push_finished s b h = ground arith
