-- ===== src/Glob/Sound.antt =====
-- glob_match of src/filters/types.rs: the values that it accepts.
use inspect.Common.{
  ℕ, suc, ◌+◌, ◌≡◌, refl, Bool, true, false, not, Option, none, some, ◌||◌, ◌⊎◌, List, [], ◌∷◌,
  ◌++◌, Str, arith, ap, ◌∙◌, sym, str_eq, str_eq_iff, to_ascii_lowercase, starts_with, is_empty,
  length, take, drop, if◌then◌else◌, inl, inr, Bool-cases, Option-cases, append-nil,
}
use inspect.Glob.{
  wildcard, split_wildcard, non_empty, contains_wildcard, starts_with_wildcard, ends_with_wildcard,
  find, strip_prefix, match_parts, match_from, accepts, glob_match_lowered, glob_match,
}
use inspect.Glob.Pieces.{
  Spelled, last, gap, last_empty, split_wildcard-plain, split_wildcard-starred,
  last_empty-split_wildcard,
}

pub starts_with-split :
    (part s : Str) → starts_with part s ≡ true → s ≡ part ++ drop (length part) s
unfolding starts_with
starts_with-split [] s h = refl
starts_with-split (p ∷ part) [] h = cc
starts_with-split (p ∷ part) (c ∷ s) h = ground (arith, starts_with-split part s)

pub find-cases :
    (part : Str) (c : ℕ) (s : Str) {i : ℕ}
    → find part (c ∷ s) ≡ some i
    → ((starts_with part (c ∷ s) ≡ true) × (i ≡ 0))
      ⊎ ((j : ℕ) × (find part s ≡ some j) × (i ≡ suc j))
unfolding find
find-cases part c s {i} h = elim (Bool-cases (starts_with part (c ∷ s))) [
  | inl here ↦ inl (here, ground arith)
  | inr later ↦ elim (Option-cases (find part s)) [
    | inl e ↦ ground arith
    | inr (j, e) ↦ inr (j, e, ground arith)
  ]
]

-- The first occurrence of a part cuts a text in three.
find-split :
    (part s : Str) {i : ℕ}
    → find part s ≡ some i
    → s ≡ take i s ++ (part ++ drop (i + length part) s)
unfolding find starts_with
find-split [] [] {i} h = ground arith
find-split (p ∷ part) [] {i} h = ground arith
find-split part (c ∷ s) {i} h = elim (find-cases part c s h) [
  | inl (here, at_0) ↦
      let z : 0 + length part ≡ length part = omega arith in
      rw (at_0, z) (starts_with-split part (c ∷ s) here)
  | inr (j, e, at_j) ↦
      let z : suc j + length part ≡ suc (j + length part) = omega arith in
      rw (at_j, z) (ap (◌∷◌ c) (find-split part s e))
]

-- A text in which a wildcard has gone before `pieces`.
abbrev pub After : List Str → Str → Type 0
After pieces text = (between : Str) × (rest : Str) × (text ≡ between ++ rest) × Spelled pieces rest

After-gap :
    (piece : Str) {pieces : List Str} (text behind before : Str)
    → text ≡ before ++ (piece ++ behind)
    → After pieces behind
    → After (piece ∷ pieces) text
After-gap piece text behind before e (between, rest, e', spelled) =
    (before, piece ++ behind, e, gap piece between (ap (λ t. piece ++ t) e') spelled)

-- The parts found one behind the other, with an open end or nothing left, are the pieces in order.
match_parts-After :
    (piece : Str) (pieces : List Str) (text : Str) {left : Str}
    → match_parts (non_empty (piece ∷ pieces)) text ≡ some left
    → (last_empty (piece ∷ pieces) || is_empty left) ≡ true
    → After (piece ∷ pieces) text
unfolding match_parts non_empty
match_parts-After [] [] text h closed = (text, [], sym (append-nil text), last [])
match_parts-After [] (next ∷ pieces) text h closed =
    After-gap [] text text [] refl (match_parts-After next pieces text h closed)
match_parts-After (c ∷ piece) [] text {left} h closed =
    elim (Option-cases (find (c ∷ piece) text)) [
      | inl e ↦ ground arith
      | inr (i, e) ↦
          let behind = drop (i + length (c ∷ piece)) text in
          let nothing : behind ≡ [] = ground arith in
          let cut : text ≡ take i text ++ ((c ∷ piece) ++ []) =
            find-split (c ∷ piece) text e ∙ ap (λ t. take i text ++ ((c ∷ piece) ++ t)) nothing in
          (
            take i text,
            c ∷ piece,
            cut ∙ ap (λ t. take i text ++ t) (append-nil (c ∷ piece)),
            last (c ∷ piece),
          )
    ]
match_parts-After (c ∷ piece) (next ∷ pieces) text {left} h closed =
    elim (Option-cases (find (c ∷ piece) text)) [
      | inl e ↦ ground arith
      | inr (i, e) ↦
          let behind = drop (i + length (c ∷ piece)) text in
          let later : match_parts (non_empty (next ∷ pieces)) behind ≡ some left =
            rw (e, match_parts) at h in
          After-gap (c ∷ piece) text behind (take i text) (find-split (c ∷ piece) text e)
            (match_parts-After next pieces behind later closed)
    ]

-- The whole loop, on a pattern with two pieces or more.
match_from-Spelled :
    (first next : Str) (pieces : List Str) (text : Str) {left : Str}
    → match_from (not (is_empty first)) (non_empty (first ∷ next ∷ pieces)) text ≡ some left
    → (last_empty (next ∷ pieces) || is_empty left) ≡ true
    → Spelled (first ∷ next ∷ pieces) text
unfolding match_from match_parts non_empty strip_prefix
match_from-Spelled [] next pieces text {left} h closed =
    let (between, rest, e, spelled) =
      match_parts-After next pieces text (unanchored (non_empty (next ∷ pieces)) h) closed in
    gap [] between e spelled
  where
    unanchored :
        (parts : List Str)
        → match_from false parts text ≡ some left
        → match_parts parts text ≡ some left
    unanchored [] g = g
    unanchored (part ∷ parts) g = g
match_from-Spelled (c ∷ first) next pieces text {left} h closed =
    elim (Bool-cases (starts_with (c ∷ first) text)) [
      | inl anchored ↦
          let behind = drop (length (c ∷ first)) text in
          let later : match_parts (non_empty (next ∷ pieces)) behind ≡ some left =
            rw (anchored, match_from) at h in
          let (between, rest, e, spelled) = match_parts-After next pieces behind later closed in
          gap (c ∷ first) between
            (starts_with-split (c ∷ first) text anchored ∙ ap (λ t. (c ∷ first) ++ t) e) spelled
      | inr free ↦ ground arith
    ]

accepts-some :
    (open_end : Bool) (o : Option Str)
    → accepts open_end o ≡ true
    → (left : Str) × (o ≡ some left) × ((open_end || is_empty left) ≡ true)
accepts-some open_end none h = cc
accepts-some open_end (some left) h = (left, refl, h)

last_empty-non_empty :
    (piece : Str) (pieces : List Str)
    → non_empty (piece ∷ pieces) ≡ []
    → last_empty (piece ∷ pieces) ≡ true
unfolding non_empty
last_empty-non_empty [] [] h = refl
last_empty-non_empty [] (next ∷ pieces) h = last_empty-non_empty next pieces h
last_empty-non_empty (c ∷ piece) pieces h = ground arith

-- The pattern's pieces and flags in terms of the pieces alone.
pub starred_pieces :
    (pattern : Str)
    → contains_wildcard pattern ≡ true
    → (first : Str) × (next : Str) × (pieces : List Str) × (split_wildcard pattern
        ≡ first ∷ next ∷ pieces)
      × (starts_with_wildcard pattern ≡ is_empty first)
      × (ends_with_wildcard pattern ≡ last_empty (next ∷ pieces))
unfolding contains_wildcard
starred_pieces [] h = cc
starred_pieces (c ∷ s) h =
    let (first, next, pieces, e, starts) = split_wildcard-starred (c ∷ s) h in
    (first, next, pieces, e, sym starts, sym (last_empty-split_wildcard c s) ∙ ap last_empty e)

pub match_from-nil : (text : Str) (anchored : Bool) → match_from anchored [] text ≡ some text
unfolding match_from
match_from-nil text true = refl
match_from-nil text false = refl

accepted-Spelled :
    (first next : Str) (pieces : List Str) (text : Str)
    → (if is_empty (non_empty (first ∷ next ∷ pieces))
        then true
        else accepts
            (last_empty (next ∷ pieces))
            (match_from (not (is_empty first)) (non_empty (first ∷ next ∷ pieces)) text))
      ≡ true
    → Spelled (first ∷ next ∷ pieces) text
accepted-Spelled first next pieces text h =
    elim (Bool-cases (is_empty (non_empty (first ∷ next ∷ pieces)))) [
      | inl no_parts ↦
          let e = is_empty-true (non_empty (first ∷ next ∷ pieces)) no_parts in
          let open_end = last_empty-non_empty first (next ∷ pieces) e in
          match_from-Spelled first next pieces text {left = text}
            (rw e (match_from-nil text (not (is_empty first)))) (rw open_end refl)
      | inr parts ↦
          let (left, found, closed) =
            accepts-some (last_empty (next ∷ pieces))
              (match_from (not (is_empty first)) (non_empty (first ∷ next ∷ pieces)) text)
              (rw parts at h) in
          match_from-Spelled first next pieces text found closed
    ]
  where
    is_empty-true : (parts : List Str) → is_empty parts ≡ true → parts ≡ []
    is_empty-true [] g = refl
    is_empty-true (part ∷ parts) g = cc

glob_match_lowered-Spelled :
    (pattern value : Str)
    → glob_match_lowered pattern value ≡ true
    → Spelled (split_wildcard pattern) value
unfolding glob_match_lowered
glob_match_lowered-Spelled pattern value h = elim (Bool-cases (contains_wildcard pattern)) [
  | inr plain ↦
      let same : pattern ≡ value = (str_eq_iff pattern value).0 (rw plain at h) in
      rw (split_wildcard-plain pattern plain, same) (last value)
  | inl starred ↦
      let (first, next, pieces, e, starts, ends) = starred_pieces pattern starred in
      rw e (accepted-Spelled first next pieces value (rw (starred, starts, ends, e) at h))
]

-- A value that matches a pattern is spelled by it: behind the lowering of both to ASCII lower case,
-- the value is the pattern's pieces in order, with any text for each wildcard.
pub glob_match-Spelled :
    (pattern value : Str)
    → glob_match pattern value ≡ true
    → Spelled (split_wildcard (to_ascii_lowercase pattern)) (to_ascii_lowercase value)
unfolding glob_match split_wildcard
glob_match-Spelled pattern value h = elim (Bool-cases (str_eq pattern (wildcard ∷ []))) [
  | inl all ↦
      let e : pattern ≡ wildcard ∷ [] = (str_eq_iff pattern (wildcard ∷ [])).0 all in
      rw e
        (gap [] (to_ascii_lowercase value) (sym (append-nil (to_ascii_lowercase value))) (last []))
  | inr other ↦
      glob_match_lowered-Spelled (to_ascii_lowercase pattern) (to_ascii_lowercase value)
        (rw other at h)
]
