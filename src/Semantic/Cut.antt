-- ===== src/Semantic/Cut.antt =====
-- src/filters/engine/semantic/body_tree_sitter.rs: where single_text_replacement cuts the two bodies.
use inspect.Common.{
  ℕ, ◌-◌, ◌≤◌, ◌≡◌, refl, sym, ap, ◌∙◌, some, [], ◌∷◌, ◌++◌, Str, arith, length, length-append,
  length-drop, length-take, take, drop, take-append-drop, take-length,
}
use mathlib.Core.List.{reverse, reverse-append, reverse-reverse, reverse-cons}
use inspect.Semantic.{
  TextReplacement, common_prefix_len, common_suffix_len, replacement_of, without_last,
  single_text_replacement,
}

common_prefix_len-le : (s t : Str) → common_prefix_len s t ≤ length s
unfolding common_prefix_len
common_prefix_len-le [] t = omega arith
common_prefix_len-le (c ∷ s) [] = omega arith
common_prefix_len-le (c ∷ s) (d ∷ t) = ground (arith, common_prefix_len-le s t)

length-take_le : (n : ℕ) (s : Str) → n ≤ length s → length (take n s) ≡ n
length-take_le n s h = omega (arith, length-take {0} n s)

take-common_prefix_len :
    (s t : Str) → take (common_prefix_len s t) s ≡ take (common_prefix_len s t) t
unfolding common_prefix_len
take-common_prefix_len [] t = refl
take-common_prefix_len (c ∷ s) [] = refl
take-common_prefix_len (c ∷ s) (d ∷ t) = ground (arith, take-common_prefix_len s t)

length-reverse : (s : Str) → length (reverse s) ≡ length s
length-reverse [] = refl
length-reverse (c ∷ s) =
    ap length (reverse-cons c s)
    ∙ length-append (reverse s) (c ∷ [])
    ∙ omega (arith, length-reverse s)

take_of_length : (a b : Str) (n : ℕ) → length a ≡ n → take n (a ++ b) ≡ a
take_of_length a b n h = rw (sym h) (take-length a b)

-- A text is what stands in front of its last `n` characters, and these.
without_last-append : (n : ℕ) (s : Str) → s ≡ without_last n s ++ reverse (take n (reverse s))
without_last-append n s =
    let front = reverse (drop n (reverse s)) in
    let back = reverse (take n (reverse s)) in
    let whole : s ≡ front ++ back =
      sym (reverse-reverse s)
      ∙ ap reverse (sym (take-append-drop n (reverse s)))
      ∙ reverse-append (take n (reverse s)) (drop n (reverse s)) in
    let size : length front ≡ length s - n =
      length-reverse (drop n (reverse s))
      ∙ length-drop n (reverse s)
      ∙ ap (λ k. k - n) (length-reverse s) in
    let cut : without_last n s ≡ front =
      ap (take (length s - n)) whole ∙ take_of_length front back (length s - n) size in
    whole ∙ ap (λ r. r ++ back) (sym cut)

replacement_of-eq :
    (start end : ℕ) (old new : Str) (r : TextReplacement)
    → replacement_of start end old new ≡ some r
    → (r.start ≡ start) × (r.old ≡ old) × (r.new ≡ new)
unfolding replacement_of
replacement_of-eq start end old new r h = ground arith

-- The bodies differ in one place: the same text in front, the old and the new text, the same text behind.
pub single_text_replacement-cut :
    (original edited : Str) (r : TextReplacement)
    → single_text_replacement original edited ≡ some r
    → (before : Str) × (behind : Str) × (original ≡ before ++ (r.old ++ behind))
      × (edited ≡ before ++ (r.new ++ behind))
      × (length before ≡ r.start)
unfolding single_text_replacement common_suffix_len
single_text_replacement-cut original edited r h =
    let start = common_prefix_len original edited in
    let left = drop start original in
    let right = drop start edited in
    let n = common_prefix_len (reverse left) (reverse right) in
    let (e, o, w) = replacement_of-eq start _ (without_last n left) (without_last n right) r h in
    let same : take n (reverse right) ≡ take n (reverse left) =
      sym (take-common_prefix_len (reverse left) (reverse right)) in
    (
      take start original,
      reverse (take n (reverse left)),
      rw o (
          sym (take-append-drop start original)
          ∙ ap (λ s. take start original ++ s) (without_last-append n left)),
      rw w (
          sym (take-append-drop start edited)
          ∙ ap (λ s. s ++ right) (sym (take-common_prefix_len original edited))
          ∙ ap (λ s. take start original ++ s)
              (without_last-append n right ∙ ap (λ t. without_last n right ++ reverse t) same)),
      rw e (length-take_le start original (common_prefix_len-le original edited)),
    )
