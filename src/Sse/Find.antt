-- ===== src/Sse/Find.antt =====
-- The search for the end of an event, `find_sse_event_end`: its bounds, and how it reads a stream
-- that arrives in pieces.
use inspect.Common.{
  ℕ, ◌+◌, ◌≤◌, ◌<◌, ◌≡◌, none, some, [], ◌∷◌, ◌++◌, inl, inr, Bytes, arith, length, starts_with,
  Option-cases, Bool-cases, leb, leb→le,
}
use inspect.Sse.{separator_at, find_from, find_sse_event_end}

separator_at_bounds :
    (s : Bytes) {k : ℕ} → separator_at s ≡ some k → (2 ≤ k) × (k ≤ 4) × (k ≤ length s)
unfolding separator_at starts_with
separator_at_bounds [] h = ground arith
separator_at_bounds (a ∷ []) h = ground arith
separator_at_bounds (a ∷ b ∷ []) h = ground arith
separator_at_bounds (a ∷ b ∷ c ∷ []) h = ground arith
separator_at_bounds (a ∷ b ∷ c ∷ d ∷ s) h = ground arith

separator_at-append :
    (x y : Bytes) {k : ℕ} → separator_at x ≡ some k → separator_at (x ++ y) ≡ some k
unfolding separator_at starts_with
separator_at-append [] y h = ground arith
separator_at-append (a ∷ []) y h = ground arith
separator_at-append (a ∷ b ∷ []) [] h = ground arith
separator_at-append (a ∷ b ∷ []) (c ∷ []) h = ground arith
separator_at-append (a ∷ b ∷ []) (c ∷ d ∷ y) h = ground arith
separator_at-append (a ∷ b ∷ c ∷ []) [] h = ground arith
separator_at-append (a ∷ b ∷ c ∷ []) (d ∷ y) h = ground arith
separator_at-append (a ∷ b ∷ c ∷ d ∷ s) y h = h

separator_at_of_append :
    (x y : Bytes) {k : ℕ} → separator_at (x ++ y) ≡ some k → k ≤ length x → separator_at x ≡ some k
unfolding separator_at starts_with
separator_at_of_append [] y h l = absurd (omega (arith, separator_at_bounds y h))
separator_at_of_append (a ∷ []) y h l = absurd (omega (arith, separator_at_bounds (a ∷ y) h))
separator_at_of_append (a ∷ b ∷ []) [] h l = h
separator_at_of_append (a ∷ b ∷ []) (c ∷ []) h l = ground arith
separator_at_of_append (a ∷ b ∷ []) (c ∷ d ∷ y) h l = ground arith
separator_at_of_append (a ∷ b ∷ c ∷ []) [] h l = h
separator_at_of_append (a ∷ b ∷ c ∷ []) (d ∷ y) h l = ground arith
separator_at_of_append (a ∷ b ∷ c ∷ d ∷ s) y h l = h

-- Where the first separator begins at the second byte, no longer one begins at the first.
separator_at_overlap :
    (a : ℕ) (x y : Bytes) {k : ℕ}
    → separator_at (a ∷ x) ≡ none
    → separator_at x ≡ some k
    → separator_at (a ∷ (x ++ y)) ≡ none
unfolding separator_at starts_with
separator_at_overlap a [] y h l = ground arith
separator_at_overlap a (b ∷ []) y h l = ground arith
separator_at_overlap a (b ∷ c ∷ []) [] h l = h
separator_at_overlap a (b ∷ c ∷ []) (d ∷ y) h l = ground arith
separator_at_overlap a (b ∷ c ∷ d ∷ x) y h l = h

-- An end lies behind at least two bytes, and within the bytes searched.
find_from_bounds :
    (i : ℕ) (s : Bytes) {n : ℕ} → find_from i s ≡ some n → (i + 2 ≤ n) × (n ≤ i + length s)
unfolding find_from
find_from_bounds i [] h = ground arith
find_from_bounds i (c ∷ s) h = elim (Option-cases (separator_at (c ∷ s))) [
  | inl e ↦ omega (arith, find_from_bounds (i + 1) s (rw (e, find_from) at h))
  | inr (k, e) ↦ ground (arith, separator_at_bounds (c ∷ s) e)
]

-- A separator that begins later in `x` rules out one at the head of `x ++ y` that `x` does not hold.
separator_at_before_find :
    (i c : ℕ) (x y : Bytes) {n : ℕ}
    → find_from i x ≡ some n
    → separator_at (c ∷ x) ≡ none
    → separator_at (c ∷ (x ++ y)) ≡ none
unfolding find_from separator_at starts_with
separator_at_before_find i c [] y h e = ground arith
separator_at_before_find i c (b ∷ []) y h e = ground arith
separator_at_before_find i c (b ∷ d ∷ []) [] h e = e
separator_at_before_find i c (b ∷ d ∷ []) (f ∷ y) h e = ground arith
separator_at_before_find i c (b ∷ d ∷ f ∷ x) y h e = e

-- What is found in a prefix is found in the whole.
find_from-append :
    (i : ℕ) (x y : Bytes) {n : ℕ} → find_from i x ≡ some n → find_from i (x ++ y) ≡ some n
unfolding find_from
find_from-append i [] y h = ground arith
find_from-append i (c ∷ x) y {n} h = elim (Option-cases (separator_at (c ∷ x))) [
  | inr (k, e) ↦ ground (arith, separator_at-append (c ∷ x) y e)
  | inl e ↦
      let later : find_from (i + 1) x ≡ some n = rw (e, find_from) at h in
      rw (separator_at_before_find (i + 1) c x y later e, find_from)
        (find_from-append (i + 1) x y later)
]

-- What a prefix does not hold ends behind that prefix.
find_from_beyond :
    (i : ℕ) (x y : Bytes) {n : ℕ}
    → find_from i x ≡ none
    → find_from i (x ++ y) ≡ some n
    → i + length x < n
unfolding find_from
find_from_beyond i [] y g h = omega (arith, find_from_bounds i y h)
find_from_beyond i (c ∷ x) y {n} g h = elim (Option-cases (separator_at (c ∷ x))) [
  | inr (k, e) ↦ ground arith
  | inl e ↦ elim (Option-cases (separator_at (c ∷ (x ++ y)))) [
    | inl e' ↦
        omega
          (arith, find_from_beyond (i + 1) x y (rw (e, find_from) at g) (rw (e', find_from) at h))
    | inr (k, e') ↦ elim (Bool-cases (leb k (length (c ∷ x)))) [
      | inl l ↦
          let held = separator_at_of_append (c ∷ x) y e' (leb→le k (length (c ∷ x)) l) in
          cc (e, held)
      | inr l ↦ ground arith
    ]
  ]
]

pub find_sse_event_end_bounds :
    (s : Bytes) {n : ℕ} → find_sse_event_end s ≡ some n → (2 ≤ n) × (n ≤ length s)
unfolding find_sse_event_end
find_sse_event_end_bounds s h = omega (arith, find_from_bounds 0 s h)

pub find_sse_event_end-append :
    (x y : Bytes) {n : ℕ} → find_sse_event_end x ≡ some n → find_sse_event_end (x ++ y) ≡ some n
unfolding find_sse_event_end
find_sse_event_end-append x y h = find_from-append 0 x y h

pub find_sse_event_end_beyond :
    (x y : Bytes) {n : ℕ}
    → find_sse_event_end x ≡ none
    → find_sse_event_end (x ++ y) ≡ some n
    → length x < n
unfolding find_sse_event_end
find_sse_event_end_beyond x y g h = omega (arith, find_from_beyond 0 x y g h)
