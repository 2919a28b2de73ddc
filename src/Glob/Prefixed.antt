-- ===== src/Glob/Prefixed.antt =====
-- src/filters/types.rs: the patterns of a text with a wildcard behind it.
use inspect.Common.{
  ℕ, ◌≡◌, refl, sym, ap, ◌∙◌, true, List, [], ◌∷◌, ◌++◌, Str, to_ascii_lowercase, append-nil, ◌==◌,
  Bool-cases, inl, inr, to_ascii_lowercase_char,
}
use inspect.Glob.{glob_match, wildcard, split_wildcard, prepend, ends_with_wildcard}
use inspect.Glob.Pieces.{Spelled, last, gap}
use inspect.Glob.Complete.{glob_match_complete}

prepend-Spelled :
    (c : ℕ) (pieces : List Str) (text : Str)
    → Spelled pieces text
    → Spelled (prepend c pieces) (c ∷ text)
prepend-Spelled c _ _ (last piece) = last (c ∷ piece)
prepend-Spelled c _ _ (gap piece between e s) = gap (c ∷ piece) between (ap (◌∷◌ c) e) s

prefix-Spelled : (s t : Str) → Spelled (split_wildcard (s ++ (wildcard ∷ []))) (s ++ t)
unfolding split_wildcard
prefix-Spelled [] t = gap [] t (sym (append-nil t)) (last [])
prefix-Spelled (c ∷ s) t = elim (Bool-cases (c == wildcard)) [
  | inl star ↦ rw star (gap [] (c ∷ []) refl (prefix-Spelled s t))
  | inr other ↦ rw other (prepend-Spelled c _ _ (prefix-Spelled s t))
]

prefix-ends_with_wildcard : (s : Str) → ends_with_wildcard (s ++ (wildcard ∷ [])) ≡ true
unfolding ends_with_wildcard
prefix-ends_with_wildcard [] = refl
prefix-ends_with_wildcard (c ∷ []) = refl
prefix-ends_with_wildcard (c ∷ d ∷ s) = prefix-ends_with_wildcard (d ∷ s)

to_ascii_lowercase-append :
    (s t : Str) → to_ascii_lowercase (s ++ t) ≡ to_ascii_lowercase s ++ to_ascii_lowercase t
to_ascii_lowercase-append [] t = refl
to_ascii_lowercase-append (c ∷ s) t =
    ap (◌∷◌ (to_ascii_lowercase_char c)) (to_ascii_lowercase-append s t)

-- A text with a wildcard behind it accepts every text that begins with it.
pub glob_match-prefix : (s t : Str) → glob_match (s ++ (wildcard ∷ [])) (s ++ t) ≡ true
glob_match-prefix s t =
    let low = to_ascii_lowercase-append s (wildcard ∷ []) in
    glob_match_complete (s ++ (wildcard ∷ [])) (s ++ t)
      (ap ends_with_wildcard low ∙ prefix-ends_with_wildcard (to_ascii_lowercase s))
      (rw (low, to_ascii_lowercase-append s t)
        (prefix-Spelled (to_ascii_lowercase s) (to_ascii_lowercase t)))
