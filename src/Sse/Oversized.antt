-- ===== src/Sse/Oversized.antt =====
-- An event that grows past the limit before its end has come: `handle_oversized_incomplete_event`
-- saves its head and keeps three bytes, and what is sent later is what an uncut stream sends.
use inspect.Common.{
  ℕ, zero, suc, ◌≤◌, ◌<◌, ◌≡◌, ◌⊎◌, refl, none, some, true, false, [], ◌++◌, inl, inr, Bytes, arith,
  length, length-append, length-take, Option-cases, Bool-cases, ◌∙◌, sym, ap, subst, take, drop,
  take_of_append, take-take,
}
use inspect.Sse.{
  SseCapture, find_sse_event_end, capture_limit_reached, save_event, save_event_with_truncation,
  truncate_event, handle_oversized_incomplete_event, push_loop, push,
}
use inspect.Sse.Find.{find_sse_event_end_bounds, find_sse_event_end_beyond}
use inspect.Sse.Tail.{tail_of, find-tail_of-none, find-tail_of-some}
use inspect.Sse.Loop.{
  saved, with_buffer, loop_none, loop_discard, loop_stop, loop_save, drop_lt, push_loop_fuel,
  push-push_loop, push_at_limit,
}
use inspect.Sse.Sent.{sent, sent_at_limit, sent_while_discarding}

-- The state once the head of an oversized event is saved.
abbrev pub cut : SseCapture → SseCapture
cut s = record (save_event_with_truncation s (take s.max_event_bytes s.buffer)) {
  discarding_oversized_event = true;
  buffer = tail_of s.buffer;
}

pub handle_stays :
    (s : SseCapture)
    → (s.discarding_oversized_event ≡ true) ⊎ (length s.buffer ≤ s.max_event_bytes)
    → handle_oversized_incomplete_event s ≡ s
unfolding handle_oversized_incomplete_event
handle_stays s h = ground arith

pub handle_cuts :
    (s : SseCapture)
    → s.discarding_oversized_event ≡ false
    → capture_limit_reached s ≡ false
    → s.max_event_bytes < length s.buffer
    → handle_oversized_incomplete_event s ≡ cut s
unfolding handle_oversized_incomplete_event capture_limit_reached
handle_cuts s d l h = ground arith

truncate_event-take :
    (m n : ℕ) (x y : Bytes)
    → m ≤ length x
    → m ≤ n
    → truncate_event (take n (x ++ y)) m ≡ truncate_event (take m x) m
unfolding truncate_event
truncate_event-take m n x y h k =
    let whole : take m (take n (x ++ y)) ≡ take m (take m x) =
      take-take m n (x ++ y) k ∙ take_of_append m x y h ∙ sym (take-take m m x (omega arith)) in
    rw whole

save_event_of_long :
    (s : SseCapture) (bytes : Bytes)
    → s.max_event_bytes < length bytes
    → save_event s bytes ≡ save_event_with_truncation s bytes
unfolding save_event
save_event_of_long s bytes h = ground arith

module _ (s : SseCapture) (b : Bytes) (o : s.finished ≡ false) (l : capture_limit_reached s ≡ false)
    (d : s.discarding_oversized_event ≡ false) (e : find_sse_event_end s.buffer ≡ none)
    (over : s.max_event_bytes < length s.buffer) where
  abbrev whole : SseCapture
  whole = with_buffer s (s.buffer ++ b)

  abbrev head_saved : SseCapture
  head_saved = save_event_with_truncation s (take s.max_event_bytes s.buffer)

  truncated_alike :
      {n : ℕ}
      → s.max_event_bytes < n
      → truncate_event (take n (s.buffer ++ b)) s.max_event_bytes
        ≡ truncate_event (take s.max_event_bytes s.buffer) s.max_event_bytes
  truncated_alike {n} h =
      truncate_event-take s.max_event_bytes n s.buffer b (omega arith) (omega arith)

  -- The event that an uncut stream saves is the head that was saved early.
  saved_alike :
      {n : ℕ} (y : Bytes)
      → find_sse_event_end (s.buffer ++ b) ≡ some n
      → with_buffer (saved whole n) y ≡ with_buffer head_saved y
  unfolding save_event_with_truncation
  saved_alike {n} y f =
      let far = find_sse_event_end_beyond s.buffer b e f in
      let bounds = find_sse_event_end_bounds (s.buffer ++ b) f in
      let long : s.max_event_bytes < length (take n (s.buffer ++ b)) =
        omega (arith, length-take n (s.buffer ++ b)) in
      ap (λ u. with_buffer u y) (save_event_of_long whole (take n (s.buffer ++ b)) long)
      ∙ ground (arith, truncated_alike {n = n} (omega arith))

  limit_alike :
      {n : ℕ}
      → find_sse_event_end (s.buffer ++ b) ≡ some n
      → capture_limit_reached (saved whole n) ≡ capture_limit_reached head_saved
  unfolding capture_limit_reached
  limit_alike f = ap capture_limit_reached (saved_alike [] f)

  sent-cut_at_limit :
      capture_limit_reached head_saved ≡ true → sent (push (cut s) b) ≡ head_saved.tx
  unfolding capture_limit_reached
  sent-cut_at_limit h = ap sent (push_at_limit (cut s) b h) ∙ sent_at_limit (cut s) h

  not_discarding :
      (y : Bytes)
      → record (with_buffer head_saved y) { discarding_oversized_event = false }
        ≡ with_buffer head_saved y
  unfolding save_event_with_truncation
  not_discarding y = ground arith

  full_still :
      (y : Bytes)
      → capture_limit_reached head_saved ≡ true
      → capture_limit_reached (with_buffer head_saved y) ≡ true
  unfolding capture_limit_reached
  full_still y h = h

  full_not : capture_limit_reached head_saved ≡ false → capture_limit_reached (cut s) ≡ false
  unfolding capture_limit_reached
  full_not h = h

  still_open : (cut s).finished ≡ false
  unfolding save_event_with_truncation
  still_open = o

  -- The end has come: both streams go on from the same state, or have reached the limit.
  sent-cut_of_some :
      (g n : ℕ)
      → length (s.buffer ++ b) < g
      → find_sse_event_end (s.buffer ++ b) ≡ some n
      → sent (push (cut s) b) ≡ sent (push_loop g whole)
  sent-cut_of_some zero n h f = absurd (omega arith)
  sent-cut_of_some (suc g) n h f = elim (Bool-cases (capture_limit_reached head_saved)) [
    | inl full ↦
        sent-cut_at_limit full
        ∙ sym (sent_at_limit (with_buffer head_saved []) (full_still [] full))
        ∙ ap sent (sym (loop_stop g whole f d (limit_alike f ∙ full) ∙ saved_alike [] f))
    | inr room ↦
        let (m, found, same) = find-tail_of-some s.buffer b e f in
        let kept = with_buffer (cut s) (tail_of s.buffer ++ b) in
        let fuel = length (tail_of s.buffer ++ b) in
        let early : push (cut s) b
            ≡ push_loop fuel (with_buffer head_saved (drop n (s.buffer ++ b))) =
          push-push_loop (suc fuel) (cut s) b still_open (full_not room) (omega arith)
          ∙ loop_discard fuel kept found refl
          ∙ ap (push_loop fuel) (
              not_discarding (drop m (tail_of s.buffer ++ b)) ∙ ap (with_buffer head_saved) same) in
        let late : push_loop (suc g) whole
            ≡ push_loop g (with_buffer head_saved (drop n (s.buffer ++ b))) =
          loop_save g whole f d (limit_alike f ∙ room)
          ∙ ap (push_loop g) (saved_alike (drop n (s.buffer ++ b)) f) in
        ap sent (
          early
          ∙ push_loop_fuel fuel g (with_buffer head_saved (drop n (s.buffer ++ b)))
              (subst (λ x. length x < fuel) same (drop_lt fuel kept found (omega arith)))
              (drop_lt g whole f h)
          ∙ sym late)
  ]

  handle-whole : handle_oversized_incomplete_event whole ≡ cut whole
  unfolding capture_limit_reached
  handle-whole = handle_cuts whole d l (omega (arith, length-append s.buffer b))

  tx_alike : (cut whole).tx ≡ head_saved.tx
  unfolding save_event_with_truncation
  tx_alike = ground (arith, take_of_append s.max_event_bytes s.buffer b (omega arith))

  -- The end has not come: neither stream has more to send.
  sent-cut_of_none :
      (g : ℕ)
      → length (s.buffer ++ b) < g
      → find_sse_event_end (s.buffer ++ b) ≡ none
      → sent (push (cut s) b) ≡ sent (push_loop g whole)
  sent-cut_of_none zero h f = absurd (omega arith)
  sent-cut_of_none (suc g) h f =
      early
      ∙ sym tx_alike
      ∙ sym (sent_while_discarding (cut whole) refl)
      ∙ ap sent (sym (loop_none g whole f ∙ handle-whole))
    where
      early : sent (push (cut s) b) ≡ head_saved.tx
      early = elim (Bool-cases (capture_limit_reached head_saved)) [
        | inl full ↦ sent-cut_at_limit full
        | inr room ↦
            let kept = with_buffer (cut s) (tail_of s.buffer ++ b) in
            let fuel = length (tail_of s.buffer ++ b) in
            ap sent (
              push-push_loop (suc fuel) (cut s) b still_open (full_not room) (omega arith)
              ∙ loop_none fuel kept (find-tail_of-none s.buffer b e f)
              ∙ handle_stays kept (inl refl))
            ∙ sent_while_discarding kept refl
      ]

  -- Saving the head early, and pushing the rest, sends what the loop sends on the whole.
  pub sent-cut :
      (g : ℕ) → length (s.buffer ++ b) < g → sent (push (cut s) b) ≡ sent (push_loop g whole)
  sent-cut g h = elim (Option-cases (find_sse_event_end (s.buffer ++ b))) [
    | inl f ↦ sent-cut_of_none g h f
    | inr (n, f) ↦ sent-cut_of_some g n h f
  ]
