-- ===== src/Glob/Exact.antt =====
-- glob_match of src/filters/types.rs against the description of a pattern by its pieces.
use inspect.Common.{
  ℕ, ◌≡◌, ◌≢◌, ◌⊎◌, ◌↔◌, refl, true, false, some, [], ◌∷◌, ◌++◌, Str, arith, ap, ◌∙◌, sym,
  append_assoc, str_eq, str_eq_iff, to_ascii_lowercase, to_ascii_lowercase_char, is_empty, inl, inr,
}
use inspect.Glob.{
  wildcard, split_wildcard, non_empty, contains_wildcard, starts_with_wildcard, ends_with_wildcard,
  match_parts, match_from, glob_match_lowered, glob_match,
}
use inspect.Glob.Pieces.{Spelled, last, gap, split_wildcard-plain}
use inspect.Glob.Sound.{glob_match-Spelled}
use inspect.Glob.Complete.{glob_match_complete, find-leftmost, match_from-unanchored}
use mathlib.Core.List.{map-append}

not-Spelled-nil : {text : Str} → Spelled [] text → ⊥
not-Spelled-nil s = elim s [ ]

Spelled-single : {piece text : Str} → Spelled (piece ∷ []) text → text ≡ piece
Spelled-single (last piece) = refl
Spelled-single (gap piece between e s) = absurd (not-Spelled-nil s)

glob_match_plain :
    (pattern value : Str)
    → contains_wildcard (to_ascii_lowercase pattern) ≡ false
    → to_ascii_lowercase value ≡ to_ascii_lowercase pattern
    → glob_match pattern value ≡ true
unfolding glob_match glob_match_lowered
glob_match_plain pattern value plain same =
    let equal = (str_eq_iff (to_ascii_lowercase pattern) (to_ascii_lowercase value)).1 (sym same) in
    ground arith

-- For a pattern that, in ASCII lower case, ends with a wildcard or has none, `glob_match` accepts
-- exactly the values that are, in ASCII lower case, spelled by the pattern: its pieces in order,
-- with any text for each wildcard.
pub glob_match_iff :
    (pattern value : Str)
    → (ends_with_wildcard (to_ascii_lowercase pattern) ≡ true)
      ⊎ (contains_wildcard (to_ascii_lowercase pattern) ≡ false)
    → (glob_match pattern value ≡ true)
      ↔ Spelled (split_wildcard (to_ascii_lowercase pattern)) (to_ascii_lowercase value)
glob_match_iff pattern value (inl open_end) =
    (glob_match-Spelled pattern value, glob_match_complete pattern value open_end)
glob_match_iff pattern value (inr plain) = (
  glob_match-Spelled pattern value,
  λ s.
      glob_match_plain pattern value plain
        (Spelled-single (rw (split_wildcard-plain (to_ascii_lowercase pattern) plain) at s)),
)

contains_wildcard-to_ascii_lowercase :
    (s : Str) → contains_wildcard s ≡ false → contains_wildcard (to_ascii_lowercase s) ≡ false
unfolding contains_wildcard
contains_wildcard-to_ascii_lowercase [] h = refl
contains_wildcard-to_ascii_lowercase (c ∷ s) h =
    let later = contains_wildcard-to_ascii_lowercase s in ground arith

is_empty-append : (x y : Str) → is_empty y ≡ false → is_empty (x ++ y) ≡ false
is_empty-append [] y h = h
is_empty-append (c ∷ x) y h = refl

not_ends_with_wildcard :
    (c : ℕ) (s : Str)
    → contains_wildcard (c ∷ s) ≡ false
    → ends_with_wildcard (wildcard ∷ c ∷ s) ≡ false
unfolding ends_with_wildcard contains_wildcard
not_ends_with_wildcard c [] h = ground arith
not_ends_with_wildcard c (d ∷ s) h = not_ends_with_wildcard d s (ground arith)

split_suffix :
    (suffix : Str)
    → contains_wildcard suffix ≡ false
    → split_wildcard (wildcard ∷ suffix) ≡ [] ∷ suffix ∷ []
split_suffix suffix plain =
    let star : split_wildcard (wildcard ∷ suffix) ≡ [] ∷ split_wildcard suffix =
      unfold split_wildcard in refl in
    star ∙ ap (◌∷◌ []) (split_wildcard-plain suffix plain)

suffix_parts :
    (c : ℕ) (s : Str)
    → contains_wildcard (c ∷ s) ≡ false
    → non_empty (split_wildcard (wildcard ∷ c ∷ s)) ≡ (c ∷ s) ∷ []
unfolding non_empty
suffix_parts c s plain = ap non_empty (split_suffix (c ∷ s) plain)

starred :
    (s : Str)
    → (contains_wildcard (wildcard ∷ s) ≡ true) × (starts_with_wildcard (wildcard ∷ s) ≡ true)
unfolding contains_wildcard starts_with_wildcard
starred s = (refl, refl)

-- `*` and a suffix, against a value that holds the suffix twice and ends with it.
suffix_twice :
    (c : ℕ) (s before between : Str)
    → contains_wildcard (c ∷ s) ≡ false
    → glob_match_lowered (wildcard ∷ c ∷ s) (before ++ ((c ∷ s) ++ (between ++ (c ∷ s)))) ≡ false
unfolding glob_match_lowered match_parts
suffix_twice c s before between plain =
    let closed = not_ends_with_wildcard c s plain in
    let (has, starts) = starred (c ∷ s) in
    let (i, more, found, left) = find-leftmost before (c ∷ s) (between ++ (c ∷ s)) in
    let some_left =
      is_empty-append more (between ++ (c ∷ s)) (is_empty-append between (c ∷ s) refl) in
    let text = before ++ ((c ∷ s) ++ (between ++ (c ∷ s))) in
    let run : match_from false ((c ∷ s) ∷ []) text ≡ some (more ++ (between ++ (c ∷ s))) =
      match_from-unanchored ((c ∷ s) ∷ []) text ∙ rw (found, match_parts) (rw left refl) in
    rw (has, suffix_parts c s plain, closed, starts, run) some_left

abbrev low : Str → Str
low = to_ascii_lowercase

low_value :
    (suffix before between : Str)
    → low (before ++ (suffix ++ (between ++ suffix)))
      ≡ low before ++ (low suffix ++ (low between ++ low suffix))
low_value suffix before between = simp map-append

rejected :
    (c : ℕ) (s before between : Str)
    → contains_wildcard (c ∷ s) ≡ false
    → glob_match (wildcard ∷ c ∷ s) (before ++ ((c ∷ s) ++ (between ++ (c ∷ s)))) ≡ false
unfolding glob_match
rejected c s before between plain =
    let lowered =
      suffix_twice (to_ascii_lowercase_char c) (low s) (low before) (low between)
        (contains_wildcard-to_ascii_lowercase (c ∷ s) plain) in
    let other : str_eq (wildcard ∷ c ∷ s) (wildcard ∷ []) ≡ false = unfold str_eq in refl in
    rw other (rw (low_value (c ∷ s) before between) lowered)

spelled :
    (suffix before between : Str)
    → contains_wildcard suffix ≡ false
    → Spelled
        (split_wildcard (low (wildcard ∷ suffix)))
        (low (before ++ (suffix ++ (between ++ suffix))))
spelled suffix before between plain =
    let cut : low (before ++ (suffix ++ (between ++ suffix)))
        ≡ (low before ++ (low suffix ++ low between)) ++ low suffix =
      low_value suffix before between ∙ simp append_assoc in
    rw (split_suffix (low suffix) (contains_wildcard-to_ascii_lowercase suffix plain))
      (gap [] (low before ++ (low suffix ++ low between)) cut (last (low suffix)))

-- A pattern that is a wildcard and a plain suffix rejects a value that ends with the suffix, if the
-- suffix stands in the value once more, further left: although the pattern spells the value.
pub glob_match-suffix_twice :
    (suffix before between : Str)
    → contains_wildcard suffix ≡ false
    → suffix ≢ []
    → (glob_match (wildcard ∷ suffix) (before ++ (suffix ++ (between ++ suffix))) ≡ false)
      × Spelled
          (split_wildcard (to_ascii_lowercase (wildcard ∷ suffix)))
          (to_ascii_lowercase (before ++ (suffix ++ (between ++ suffix))))
glob_match-suffix_twice [] before between plain ne = absurd (ne refl)
glob_match-suffix_twice (c ∷ s) before between plain ne =
    (rejected c s before between plain, spelled (c ∷ s) before between plain)
