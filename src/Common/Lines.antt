-- ===== src/Common/Lines.antt =====
-- Lines and fields of a text, as `str::trim`, `str::lines`, `str::split_once`, `str::ends_with` and
-- `str::find` give them, and `parse::<u16>`.
use Prim.Native.Nat.{ℕ, suc, ◌+◌, ◌-◌, ◌*◌}
use mathlib.Core.Bool.{Bool, false, ◌&&◌}
use mathlib.Core.List.{List, [], ◌∷◌}
use mathlib.Core.Option.{Option, none, some}
use inspect.Common.Lists.{length, take, drop, is_empty}
use inspect.Common.Tests.{ltb, leb, ◌==◌, if◌then◌else◌}
use inspect.Common.Text.{Str, is_whitespace, starts_with}

abbrev pub line_feed : ℕ
line_feed = 10

abbrev pub carriage_return : ℕ
carriage_return = 13

unfoldable pub trim_start : Str → Str
trim_start [] = []
trim_start (c ∷ s) = let rest = trim_start s in if is_whitespace c then rest else c ∷ s

unfoldable pub trim_end : Str → Str
trim_end [] = []
trim_end (c ∷ s) =
    let rest = trim_end s in
    if is_empty rest then (if is_whitespace c then [] else c ∷ []) else c ∷ rest

abbrev pub trim : Str → Str
trim s = trim_end (trim_start s)

-- The first line gets one more character; a text with no line yet begins one.
abbrev pub lengthen : ℕ → List Str → List Str
lengthen c [] = (c ∷ []) ∷ []
lengthen c (line ∷ rest) = (c ∷ line) ∷ rest

-- A line ends at a line feed, or at a carriage return with a line feed behind it.
unfoldable pub lines : Str → List Str
unfolding starts_with
lines [] = []
lines (c ∷ s) =
    let rest = lines s in
    if c == line_feed
    then [] ∷ rest
    else if c == carriage_return && starts_with (line_feed ∷ []) s
    then rest
    else lengthen c rest

-- The texts on both sides of the first separator.
abbrev pub later_cut : ℕ → Option (Str × Str) → Option (Str × Str)
later_cut c none = none
later_cut c (some (before, behind)) = some (c ∷ before, behind)

unfoldable pub split_once : ℕ → Str → Option (Str × Str)
split_once sep [] = none
split_once sep (c ∷ s) =
    let later = later_cut c (split_once sep s) in if c == sep then some ([], s) else later

-- The texts on both sides of the last separator.
unfoldable pub rsplit_once : ℕ → Str → Option (Str × Str)
rsplit_once sep [] = none
rsplit_once sep (c ∷ s) = elim (rsplit_once sep s) [
  | some (before, behind) ↦ some (c ∷ before, behind)
  | none ↦ if c == sep then some ([], s) else none
]

unfoldable pub ends_with_char : ℕ → Str → Bool
ends_with_char last [] = false
ends_with_char last (c ∷ []) = c == last
ends_with_char last (c ∷ d ∷ s) = ends_with_char last (d ∷ s)

abbrev pub one_later : Option ℕ → Option ℕ
one_later none = none
one_later (some i) = some (suc i)

-- Where the first occurrence of a text begins, and the texts in front of it and behind it.
unfoldable pub find : Str → Str → Option ℕ
find part [] = if starts_with part [] then some 0 else none
find part (c ∷ s) =
    let later = one_later (find part s) in if starts_with part (c ∷ s) then some 0 else later

unfoldable pub cut_at : Str → Str → Option (Str × Str)
unfolding find
cut_at marker s = elim (find marker s) [
  | none ↦ none
  | some i ↦ some (take i s, drop (i + length marker) s)
]

unfoldable pub is_ascii_digit : ℕ → Bool
is_ascii_digit c = leb b'0' c && leb c b'9'

-- The digits of a number below 2 ^ 16, behind those already read.
unfoldable pub u16_from : ℕ → Str → Option ℕ
unfolding is_ascii_digit
u16_from acc [] = some acc
u16_from acc (c ∷ s) =
    let next = acc * 10 + (c - b'0') in
    let rest = u16_from next s in
    if is_ascii_digit c then (if ltb next 65536 then rest else none) else none

unfoldable pub digits_u16 : Str → Option ℕ
unfolding u16_from
digits_u16 [] = none
digits_u16 (c ∷ s) = u16_from 0 (c ∷ s)

-- `parse::<u16>`: a sign `+` may stand in front.
unfoldable pub parse_u16 : Str → Option ℕ
unfolding digits_u16
parse_u16 [] = none
parse_u16 (c ∷ s) = if c == b'+' then digits_u16 s else digits_u16 (c ∷ s)
