-- ===== src/Common/Splitting.antt =====
-- Texts made of lines: their lines, and where a line of its own first stands in them.
use Prim.Native.Nat.{ℕ, suc, ◌+◌}
use mathlib.Core.Path.{◌≡◌, refl, ap, sym, ◌∙◌}
use mathlib.Core.Bool.{true, false}
use mathlib.Core.List.{List, [], ◌∷◌, ◌++◌, append_assoc}
use mathlib.Core.Option.{some}
use native.Mathlib.Omega.{arith}
use inspect.Common.Lists.{length, take, drop, is_empty, All, length-append}
use inspect.Common.Lines.{lines, split_once, find, cut_at, line_feed}
use inspect.Common.Tests.{◌==◌}
use inspect.Common.Text.{Str, starts_with, str_eq, contains}

-- The characters that do not end a line.
abbrev pub Inline : ℕ → Type 0
Inline c = ((c == 10) ≡ false) × ((c == 13) ≡ false)

abbrev pub IsLine : Str → Type 0
IsLine s = All Inline s

abbrev pub Lacks : ℕ → Str → Type 0
Lacks sep s = All (λ c. (c == sep) ≡ false) s

-- The text of some lines, each ended by a line feed.
abbrev pub render : List Str → Str
render [] = []
render (line ∷ rest) = line ++ (line_feed ∷ render rest)

lines-line : (s t : Str) → IsLine s → lines (s ++ (line_feed ∷ t)) ≡ s ∷ lines t
unfolding lines
lines-line [] t h = refl
lines-line (c ∷ s) t (plain, h) = rw (plain.0, plain.1, lines-line s t h) refl

pub lines-render : (ls : List Str) → All IsLine ls → lines (render ls) ≡ ls
unfolding lines
lines-render [] h = refl
lines-render (line ∷ rest) (here, h) =
    lines-line line (render rest) here ∙ ap (◌∷◌ line) (lines-render rest h)

pub split_once-append :
    (sep : ℕ) (before behind : Str)
    → Lacks sep before
    → split_once sep (before ++ (sep ∷ behind)) ≡ some (before, behind)
unfolding split_once
split_once-append sep [] behind h = ground arith
split_once-append sep (c ∷ before) behind (other, h) =
    rw (other, split_once-append sep before behind h) refl

pub starts_with-append : (s t : Str) → starts_with s (s ++ t) ≡ true
unfolding starts_with
starts_with-append [] t = refl
starts_with-append (c ∷ s) t = ground (arith, starts_with-append s t)

-- Behind a line feed no other line looks like the word.
starts_with-other_line :
    (word line t : Str)
    → IsLine word
    → IsLine line
    → str_eq line word ≡ false
    → starts_with (word ++ (line_feed ∷ [])) (line ++ (line_feed ∷ t)) ≡ false
unfolding starts_with str_eq
starts_with-other_line [] [] t h k e = cc
starts_with-other_line [] (d ∷ line) t h (plain, k) e = rw plain.0 refl
starts_with-other_line (c ∷ word) [] t (plain, h) k e = ground arith
starts_with-other_line (c ∷ word) (d ∷ line) t (_, h) (_, k) e =
    ground (arith, starts_with-other_line word line t h k)

find-line :
    (word s t : Str)
    → IsLine s
    → (i : ℕ) → find (line_feed ∷ word) (line_feed ∷ t) ≡ some i
    → find (line_feed ∷ word) (s ++ (line_feed ∷ t)) ≡ some (length s + i)
unfolding find starts_with
find-line word [] t h i e = e ∙ ap some (omega arith)
find-line word (c ∷ s) t (plain, h) i e =
    rw (plain.0, find-line word s t h i e) (ap some (omega arith))

pub take-length : (s t : Str) → take (length s) (s ++ t) ≡ s
take-length [] t = refl
take-length (c ∷ s) t = ap (◌∷◌ c) (take-length s t)

pub drop-length : (s t : Str) → drop (length s) (s ++ t) ≡ t
drop-length [] t = refl
drop-length (c ∷ s) t = drop-length s t

drop-add : (s t : Str) (n : ℕ) → drop (length s + n) (s ++ t) ≡ drop n t
drop-add [] t n = let e : 0 + n ≡ n = omega arith in rw e refl
drop-add (c ∷ s) t n =
    let e : suc (length s) + n ≡ suc (length s + n) = omega arith in rw e (drop-add s t n)

cut_at_of_find :
    (marker s : Str) (i : ℕ)
    → find marker s ≡ some i
    → cut_at marker s ≡ some (take i s, drop (i + length marker) s)
unfolding cut_at
cut_at_of_find marker s i h = rw (h, cut_at) refl

module _ (word : Str) (plain : IsLine word) (some_word : is_empty word ≡ false) (rest : Str) where
  abbrev marker : Str
  marker = word ++ (line_feed ∷ [])

  abbrev tail : Str
  tail = line_feed ∷ (word ++ (line_feed ∷ rest))

  starts_with-next_line :
      (ls : List Str)
      → All IsLine ls
      → All (λ line. str_eq line word ≡ false) ls
      → starts_with marker (render ls ++ tail) ≡ false
  unfolding starts_with
  starts_with-next_line [] h k = first_differs word plain some_word
    where
      first_differs :
          (w : Str)
          → IsLine w
          → is_empty w ≡ false
          → starts_with (w ++ (line_feed ∷ [])) (line_feed ∷ (word ++ (line_feed ∷ rest))) ≡ false
      first_differs [] p e = cc
      first_differs (c ∷ w) p e = ground arith
  starts_with-next_line (line ∷ more) (here, h) (other, k) =
      ap (starts_with marker) (append_assoc line (line_feed ∷ render more) tail)
      ∙ starts_with-other_line word line (render more ++ tail) plain here other

  -- The first line feed with the word as its next line is the one behind the other lines.
  pub find-render :
      (ls : List Str)
      → All IsLine ls
      → All (λ line. str_eq line word ≡ false) ls
      → find (line_feed ∷ marker) (render ls ++ tail) ≡ some (length (render ls))
  unfolding find starts_with
  find-render [] h k =
      let starts : starts_with marker (word ++ (line_feed ∷ rest)) ≡ true =
        ap (starts_with marker) (sym (append_assoc word (line_feed ∷ []) rest))
        ∙ starts_with-append marker rest in
      rw starts refl
  find-render (line ∷ more) (here, h) (other, k) =
      let next : find (line_feed ∷ marker) (line_feed ∷ (render more ++ tail))
          ≡ some (suc (length (render more))) =
        rw (starts_with-next_line more h k, find-render more h k) refl in
      ap (find (line_feed ∷ marker)) (append_assoc line (line_feed ∷ render more) tail)
      ∙ find-line marker line (render more ++ tail) here (suc (length (render more))) next
      ∙ ap some (omega (arith, length-append line (line_feed ∷ render more)))

  -- So the text is cut there.
  pub cut_at-render :
      (ls : List Str)
      → All IsLine ls
      → All (λ line. str_eq line word ≡ false) ls
      → cut_at (line_feed ∷ marker) (render ls ++ tail) ≡ some (render ls, rest)
  cut_at-render ls h k =
      let behind : drop (length marker) (word ++ (line_feed ∷ rest)) ≡ rest =
        ap (drop (length marker)) (sym (append_assoc word (line_feed ∷ []) rest))
        ∙ drop-length marker rest in
      cut_at_of_find (line_feed ∷ marker) (render ls ++ tail) (length (render ls))
        (find-render ls h k)
      ∙ rw (take-length (render ls) tail, drop-add (render ls) tail (suc (length marker)), behind)
          refl

contains-prefix : (part s : Str) → starts_with part s ≡ true → contains part s ≡ true
unfolding contains
contains-prefix part [] h = h
contains-prefix part (c ∷ s) h = rw h refl

pub contains-append : (part before behind : Str) → contains part (before ++ (part ++ behind)) ≡ true
unfolding contains
contains-append part [] behind =
    contains-prefix part (part ++ behind) (starts_with-append part behind)
contains-append part (c ∷ before) behind = ground (arith, contains-append part before behind)
