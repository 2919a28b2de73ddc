-- ===== src/Glob/Pieces.antt =====
-- The pieces of a pattern of glob_match in src/filters/types.rs, and its tests on the pattern.
use inspect.Common.{
  ℕ, ◌≡◌, refl, Bool, true, false, List, [], ◌∷◌, ◌++◌, Str, arith, is_empty, ◌==◌, inl, inr,
  Bool-cases,
}
use inspect.Glob.{
  wildcard, split_wildcard, contains_wildcard, starts_with_wildcard, ends_with_wildcard,
}

-- The texts that a list of pieces describes: the pieces in order, the first at the beginning, the last
-- at the end, and any text between each and the next.
pub data Spelled : List Str → Str → Type 0 where
  last : (piece : Str) → Spelled (piece ∷ []) piece
  gap :
      (piece between : Str) {pieces : List Str} {rest text : Str}
      → text ≡ piece ++ (between ++ rest)
      → Spelled pieces rest
      → Spelled (piece ∷ pieces) text

abbrev pub last_empty : List Str → Bool
last_empty [] = false
last_empty (piece ∷ []) = is_empty piece
last_empty (piece ∷ next ∷ pieces) = last_empty (next ∷ pieces)

split_wildcard-ne_nil :
    (s : Str) → (piece : Str) × (pieces : List Str) × (split_wildcard s ≡ piece ∷ pieces)
unfolding split_wildcard
split_wildcard-ne_nil [] = ([], [], refl)
split_wildcard-ne_nil (c ∷ s) = elim (Bool-cases (c == wildcard)) [
  | inl star ↦ ([], split_wildcard s, rw star refl)
  | inr plain ↦
      let (piece, pieces, e) = split_wildcard-ne_nil s in (c ∷ piece, pieces, rw (plain, e) refl)
]

-- With no wildcard the pattern is its only piece.
pub split_wildcard-plain : (s : Str) → contains_wildcard s ≡ false → split_wildcard s ≡ s ∷ []
unfolding split_wildcard contains_wildcard
split_wildcard-plain [] h = refl
split_wildcard-plain (c ∷ s) h = ground (arith, split_wildcard-plain s)

-- With one there are two pieces or more, the first empty exactly when the pattern begins with it.
pub split_wildcard-starred :
    (s : Str)
    → contains_wildcard s ≡ true
    → (first : Str) × (next : Str) × (rest : List Str) × (split_wildcard s ≡ first ∷ next ∷ rest)
      × (is_empty first ≡ starts_with_wildcard s)
unfolding split_wildcard contains_wildcard starts_with_wildcard
split_wildcard-starred [] h = cc
split_wildcard-starred (c ∷ s) h = elim (Bool-cases (c == wildcard)) [
  | inl star ↦
      let (piece, pieces, e) = split_wildcard-ne_nil s in
      ([], piece, pieces, rw (star, e) refl, rw star refl)
  | inr plain ↦
      let (first, next, rest, e, _) = split_wildcard-starred s (rw plain at h) in
      (c ∷ first, next, rest, rw (plain, e) refl, rw plain refl)
]

-- The last piece is empty exactly when the pattern ends with a wildcard.
pub last_empty-split_wildcard :
    (c : ℕ) (s : Str) → last_empty (split_wildcard (c ∷ s)) ≡ ends_with_wildcard (c ∷ s)
unfolding split_wildcard ends_with_wildcard
last_empty-split_wildcard c [] = ground arith
last_empty-split_wildcard c (d ∷ s) = elim (Bool-cases (c == wildcard)) [
  | inl star ↦
      let (piece, pieces, e) = split_wildcard-ne_nil (d ∷ s) in
      rw (star, e) (rw e at (last_empty-split_wildcard d s))
  | inr plain ↦ elim (Bool-cases (contains_wildcard (d ∷ s))) [
    | inl more ↦
        let (first, next, rest, e, _) = split_wildcard-starred (d ∷ s) more in
        rw (plain, e) (rw e at (last_empty-split_wildcard d s))
    | inr none_left ↦
        let e = split_wildcard-plain (d ∷ s) none_left in
        rw (plain, e) (rw e at (last_empty-split_wildcard d s))
  ]
]
