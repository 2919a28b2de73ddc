-- ===== src/Glob/Complete.antt =====
-- glob_match of src/filters/types.rs: the values that a pattern spells.
use inspect.Common.{
  ℕ, suc, ◌+◌, ◌≤◌, ◌≡◌, refl, true, false, not, some, List, [], ◌∷◌, ◌++◌, Str, arith, ap, ◌∙◌,
  sym, to_ascii_lowercase, starts_with, is_empty, length, length-append, drop, drop_of_append, inl,
  inr, Bool-cases, append_assoc,
}
use inspect.Glob.{
  split_wildcard, non_empty, contains_wildcard, ends_with_wildcard, find, strip_prefix, match_parts,
  match_from, glob_match_lowered, glob_match,
}
use inspect.Glob.Pieces.{Spelled, last, gap, last_empty}
use inspect.Glob.Sound.{starred_pieces}

starts_with-append : (part s : Str) → starts_with part (part ++ s) ≡ true
unfolding starts_with
starts_with-append [] s = refl
starts_with-append (p ∷ part) s = ground (arith, starts_with-append part s)

drop_length : (part s : Str) → drop (length part) (part ++ s) ≡ s
drop_length [] s = refl
drop_length (p ∷ part) s = drop_length part s

-- The first occurrence of a part is at or before a given one, and leaves all that is behind that one.
pub find-leftmost :
    (between part rest : Str)
    → (i : ℕ) × (more : Str) × (find part (between ++ (part ++ rest)) ≡ some i)
      × (drop (i + length part) (between ++ (part ++ rest)) ≡ more ++ rest)
unfolding find
find-leftmost [] [] [] = (0, [], unfold starts_with in refl, refl)
find-leftmost [] [] (c ∷ rest) = (0, [], unfold starts_with in refl, refl)
find-leftmost [] (p ∷ part) rest =
    let z : 0 + suc (length part) ≡ suc (length part) = omega arith in
    (0, [], rw (starts_with-append (p ∷ part) rest) refl, rw z (drop_length part rest))
find-leftmost (c ∷ between) part rest =
    elim (Bool-cases (starts_with part (c ∷ (between ++ (part ++ rest))))) [
      | inl here ↦
          let z : 0 + length part ≡ length part = omega arith in
          let fits : length part ≤ length ((c ∷ between) ++ part) =
            omega (arith, length-append (c ∷ between) part) in
          (
            0,
            drop (length part) ((c ∷ between) ++ part),
            rw here refl,
            rw (z, ← drop_of_append (length part) ((c ∷ between) ++ part) rest fits)
                (ap (drop (length part)) (sym (append_assoc (c ∷ between) part rest))),
          )
      | inr later ↦
          let (i, more, found, left) = find-leftmost between part rest in
          let z : suc i + length part ≡ suc (i + length part) = omega arith in
          (suc i, more, rw (later, found) refl, rw z left)
    ]

last_empty-gap :
    {pieces : List Str} {rest : Str} (piece : Str)
    → Spelled pieces rest
    → last_empty (piece ∷ pieces) ≡ last_empty pieces
last_empty-gap piece (last p) = refl
last_empty-gap piece (gap p between e s) = refl

match_parts_complete :
    {pieces : List Str} {rest : Str} (between text : Str)
    → Spelled pieces rest
    → last_empty pieces ≡ true
    → text ≡ between ++ rest
    → (left : Str) × (match_parts (non_empty pieces) text ≡ some left)
unfolding match_parts non_empty
match_parts_complete between text (last []) o e = (text, refl)
match_parts_complete between text (last (c ∷ piece)) o e = cc
match_parts_complete between text (gap [] b {pieces} {rest} e' s) o e =
    match_parts_complete (between ++ b) text s (sym (last_empty-gap [] s) ∙ o)
      (e ∙ ap (λ t. between ++ t) e' ∙ sym (append_assoc between b rest))
match_parts_complete between text (gap (c ∷ piece) b {pieces} {rest} e' s) o e =
    let (i, more, found, left) = find-leftmost between (c ∷ piece) (b ++ rest) in
    let whole = e ∙ ap (λ t. between ++ t) e' in
    let (end, later) =
      match_parts_complete (more ++ b) (more ++ (b ++ rest)) s
        (sym (last_empty-gap (c ∷ piece) s) ∙ o) (sym (append_assoc more b rest)) in
    let found' : find (c ∷ piece) text ≡ some i = rw whole found in
    let left' : drop (i + length (c ∷ piece)) text ≡ more ++ (b ++ rest) = rw whole left in
    (end, rw (found', match_parts) (rw left' later))

pub match_from-unanchored :
    (parts : List Str) (text : Str) → match_from false parts text ≡ match_parts parts text
unfolding match_from match_parts
match_from-unanchored [] text = refl
match_from-unanchored (part ∷ parts) text = refl

match_from_complete :
    {first next : Str} {pieces : List Str} {text : Str}
    → Spelled (first ∷ next ∷ pieces) text
    → last_empty (next ∷ pieces) ≡ true
    → (left : Str) × (match_from (not (is_empty first)) (non_empty (first ∷ next ∷ pieces)) text
        ≡ some left)
unfolding match_from strip_prefix non_empty
match_from_complete {next} {pieces} (gap [] between {rest} e s) o =
    let (left, found) = match_parts_complete between _ s o e in
    (left, match_from-unanchored (non_empty (next ∷ pieces)) _ ∙ found)
match_from_complete {next} {pieces} (gap (c ∷ first) between {rest} e s) o =
    let (left, found) = match_parts_complete between (between ++ rest) s o refl in
    (
      left,
      rw (e, starts_with-append (c ∷ first) (between ++ rest), match_from)
          (rw (drop_length (c ∷ first) (between ++ rest)) found),
    )

contains_wildcard_of_ends : (s : Str) → ends_with_wildcard s ≡ true → contains_wildcard s ≡ true
unfolding ends_with_wildcard contains_wildcard
contains_wildcard_of_ends [] h = cc
contains_wildcard_of_ends (c ∷ []) h = ground arith
contains_wildcard_of_ends (c ∷ d ∷ s) h =
    let later = contains_wildcard_of_ends (d ∷ s) h in ground arith

glob_match_lowered_complete :
    (pattern value : Str)
    → ends_with_wildcard pattern ≡ true
    → Spelled (split_wildcard pattern) value
    → glob_match_lowered pattern value ≡ true
unfolding glob_match_lowered
glob_match_lowered_complete pattern value open_end spelled =
    let starred = contains_wildcard_of_ends pattern open_end in
    let (first, next, pieces, e, starts, ends) = starred_pieces pattern starred in
    let (left, found) = match_from_complete (rw e at spelled) (sym ends ∙ open_end) in
    rw (starred, open_end, starts, e) (ground (arith, found))

-- A pattern that, in ASCII lower case, ends with a wildcard accepts every value it spells.
pub glob_match_complete :
    (pattern value : Str)
    → ends_with_wildcard (to_ascii_lowercase pattern) ≡ true
    → Spelled (split_wildcard (to_ascii_lowercase pattern)) (to_ascii_lowercase value)
    → glob_match pattern value ≡ true
unfolding glob_match
glob_match_complete pattern value open_end spelled =
    let lowered =
      glob_match_lowered_complete (to_ascii_lowercase pattern) (to_ascii_lowercase value) open_end
        spelled in
    ground (arith, lowered)
