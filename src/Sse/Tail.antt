-- ===== src/Sse/Tail.antt =====
-- What the capture of src/mitm/flow/sse_capture.rs keeps of an oversized event, and the end of
-- that event.
use inspect.Common.{
  ℕ, suc, true, false, sym, ◌+◌, ◌-◌, ◌≤◌, ◌≡◌, refl, none, some, [], ◌∷◌, ◌++◌, inl, inr, Bytes,
  arith, length, length-append, length-drop, starts_with, Option-cases, Bool-cases, leb, leb→le,
  ◌∙◌, ap, append_assoc, take, drop, take-append-drop,
}
use inspect.Sse.{separator_at, find_from, find_sse_event_end}

find_from-none :
    (i c : ℕ) (x : Bytes)
    → find_from i (c ∷ x) ≡ none
    → (separator_at (c ∷ x) ≡ none) × (find_from (i + 1) x ≡ none)
unfolding find_from
find_from-none i c x h = ground arith

-- Four bytes decide whether a separator begins at the first.
separator_at-none_append :
    (x y : Bytes) → separator_at x ≡ none → 4 ≤ length x → separator_at (x ++ y) ≡ none
unfolding separator_at starts_with
separator_at-none_append (a ∷ b ∷ c ∷ d ∷ x) y h l = h
separator_at-none_append _ y h l = absurd (omega arith)

-- The last three bytes of a prefix that holds no end decide where the next end is.
find_from_tail :
    (i : ℕ) (w z y : Bytes)
    → find_from i (w ++ z) ≡ none
    → 3 ≤ length z
    → find_from i (w ++ (z ++ y)) ≡ find_from (i + length w) (z ++ y)
unfolding find_from
find_from_tail i [] z y g l = let e : i + 0 ≡ i = omega arith in rw e
find_from_tail i (c ∷ w) z y g l =
    let (e, rest) = find_from-none i c (w ++ z) g in
    let far : 4 ≤ length (c ∷ (w ++ z)) = omega (arith, length-append w z) in
    let here : separator_at (c ∷ (w ++ (z ++ y))) ≡ none =
      rw append_assoc at (separator_at-none_append (c ∷ (w ++ z)) y e far) in
    let move : i + 1 + length w ≡ i + suc (length w) = omega arith in
    rw (here, find_from) (find_from_tail (i + 1) w z y rest l ∙ ap (λ j. find_from j (z ++ y)) move)

find_from-shift :
    (i j : ℕ) (s : Bytes) {n : ℕ} → find_from i s ≡ some n → find_from (j + i) s ≡ some (j + n)
unfolding find_from
find_from-shift i j [] h = cc
find_from-shift i j (c ∷ s) {n} h =
    let move : j + (i + 1) ≡ j + i + 1 = omega arith in
    elim (Option-cases (separator_at (c ∷ s))) [
      | inl e ↦
          rw (e, find_from) (rw (← move) (find_from-shift (i + 1) j s (rw (e, find_from) at h)))
      | inr (k, e) ↦ ground arith
    ]

find_from-shift_none : (i j : ℕ) (s : Bytes) → find_from i s ≡ none → find_from j s ≡ none
unfolding find_from
find_from-shift_none i j [] h = refl
find_from-shift_none i j (c ∷ s) h =
    let (e, rest) = find_from-none i c s h in
    rw (e, find_from) (find_from-shift_none (i + 1) (j + 1) s rest)

drop-drop_append : (w x : Bytes) (n : ℕ) → drop (length w + n) (w ++ x) ≡ drop n x
drop-drop_append [] x n = let e : 0 + n ≡ n = omega arith in rw e
drop-drop_append (c ∷ w) x n =
    let e : suc (length w) + n ≡ suc (length w + n) = omega arith in rw e (drop-drop_append w x n)

-- `x` reduced to its last three bytes, as an oversized event is cut, or to all of it if shorter.
abbrev pub tail_of : Bytes → Bytes
tail_of x = drop (length x - 3) x

tail_of-none :
    (w z y : Bytes)
    → find_sse_event_end (w ++ z) ≡ none
    → 3 ≤ length z
    → find_sse_event_end (w ++ (z ++ y)) ≡ none
    → find_sse_event_end (z ++ y) ≡ none
unfolding find_sse_event_end
tail_of-none w z y g l h =
    find_from-shift_none (0 + length w) 0 (z ++ y) (rw (find_from_tail 0 w z y g l) at h)

tail_of-some :
    (w z y : Bytes) {n : ℕ}
    → find_sse_event_end (w ++ z) ≡ none
    → 3 ≤ length z
    → find_sse_event_end (w ++ (z ++ y)) ≡ some n
    → (m : ℕ) × (find_sse_event_end (z ++ y) ≡ some m) × (drop m (z ++ y) ≡ drop n (w ++ (z ++ y)))
unfolding find_sse_event_end
tail_of-some w z y {n} g l h =
    let at_w = find_from_tail 0 w z y g l in
    elim (Option-cases (find_from 0 (z ++ y))) [
      | inl e ↦ cc (find_from-shift_none 0 (0 + length w) (z ++ y) e, at_w)
      | inr (m, e) ↦
          let zero_w : length w + 0 ≡ 0 + length w = omega arith in
          let shifted = rw zero_w at (find_from-shift 0 (length w) (z ++ y) e) in
          let same : n ≡ length w + m = ground arith in
          (m, e, rw (same, drop-drop_append w (z ++ y) m))
    ]

module _ (x y : Bytes) (g : find_sse_event_end x ≡ none) where
  long_enough : leb 3 (length x) ≡ true → 3 ≤ length (tail_of x)
  long_enough l = let l' = leb→le 3 (length x) l in omega (arith, length-drop (length x - 3) x)

  short : leb 3 (length x) ≡ false → tail_of x ≡ x
  short l = let e : length x - 3 ≡ 0 = ground arith in rw e

  split : take (length x - 3) x ++ tail_of x ≡ x
  split = take-append-drop (length x - 3) x

  pub find-tail_of-none :
      find_sse_event_end (x ++ y) ≡ none → find_sse_event_end (tail_of x ++ y) ≡ none
  find-tail_of-none h = elim (Bool-cases (leb 3 (length x))) [
    | inl l ↦
        tail_of-none (take (length x - 3) x) (tail_of x) y (rw split g) (long_enough l)
          (rw (← append_assoc, split) h)
    | inr l ↦ rw (short l) h
  ]

  pub find-tail_of-some :
      {n : ℕ}
      → find_sse_event_end (x ++ y) ≡ some n
      → (m : ℕ) × (find_sse_event_end (tail_of x ++ y) ≡ some m)
        × (drop m (tail_of x ++ y) ≡ drop n (x ++ y))
  find-tail_of-some {n} h = elim (Bool-cases (leb 3 (length x))) [
    | inl l ↦
        let (m, found, same) =
          tail_of-some (take (length x - 3) x) (tail_of x) y (rw split g) (long_enough l)
            (rw (← append_assoc, split) h) in
        (m, found, same ∙ ap (drop n) (sym (append_assoc _ _ y) ∙ ap (λ t. t ++ y) split))
    | inr l ↦ (n, rw (short l) h, rw (short l) refl)
  ]
