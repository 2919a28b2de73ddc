-- ===== src/Common/Trimming.antt =====
-- Texts that trimming leaves as they are, and what it takes off a text that ends in one of them.
use Prim.Native.Nat.{ℕ}
use mathlib.Core.Path.{◌≡◌, refl, ap, ◌∙◌}
use mathlib.Core.Bool.{false}
use mathlib.Core.List.{[], ◌∷◌, ◌++◌}
use inspect.Common.Lists.{is_empty}
use inspect.Common.Lines.{trim_start, trim_end, trim}
use inspect.Common.Text.{Str, is_whitespace}

abbrev pub StartsPlain : Str → Type 0
StartsPlain [] = Unit {0}
StartsPlain (c ∷ s) = is_whitespace c ≡ false

abbrev pub EndsPlain : Str → Type 0
EndsPlain [] = Unit {0}
EndsPlain (c ∷ []) = is_whitespace c ≡ false
EndsPlain (c ∷ d ∷ s) = EndsPlain (d ∷ s)

pub record IsTrimmed (s : Str) : Type 0 where
  pub starts : StartsPlain s
  pub ends : EndsPlain s

trim_start_plain : (s : Str) → StartsPlain s → trim_start s ≡ s
unfolding trim_start
trim_start_plain [] h = refl
trim_start_plain (c ∷ s) h = rw h refl

trim_end_plain : (s : Str) → EndsPlain s → trim_end s ≡ s
unfolding trim_end
trim_end_plain [] h = refl
trim_end_plain (c ∷ []) h = rw h refl
trim_end_plain (c ∷ d ∷ s) h = rw (trim_end_plain (d ∷ s) h) refl

pub trim_of_trimmed : {s : Str} → IsTrimmed s → trim s ≡ s
trim_of_trimmed {s} h = rw (trim_start_plain s h.starts) (trim_end_plain s h.ends)

pub trim_end-append :
    (s t : Str) → is_empty (trim_end t) ≡ false → trim_end (s ++ t) ≡ s ++ trim_end t
unfolding trim_end
trim_end-append [] t h = refl
trim_end-append (c ∷ []) t h = rw (trim_end-append [] t h, h) refl
trim_end-append (c ∷ d ∷ s) t h = rw (trim_end-append (d ∷ s) t h) refl

-- What stands behind a colon and a space: the space goes only with an empty value.
abbrev pub behind_colon : Str → Str
behind_colon [] = []
behind_colon (c ∷ s) = 32 ∷ c ∷ s

trim_end_field :
    (value : Str) → EndsPlain value → trim_end (58 ∷ 32 ∷ value) ≡ 58 ∷ behind_colon value
unfolding trim_end is_whitespace
trim_end_field [] h = refl
trim_end_field (c ∷ s) h = rw (trim_end_plain (c ∷ s) h) refl

-- A field whose label begins plainly loses no more than that space.
pub trim_field :
    (c : ℕ) (label value : Str)
    → is_whitespace c ≡ false
    → EndsPlain value
    → trim ((c ∷ label) ++ (58 ∷ 32 ∷ value)) ≡ (c ∷ label) ++ (58 ∷ behind_colon value)
trim_field c label value plain h =
    let e = trim_end_field value h in
    ap trim_end (trim_start_plain (c ∷ (label ++ (58 ∷ 32 ∷ value))) plain)
    ∙ trim_end-append (c ∷ label) (58 ∷ 32 ∷ value) (rw e refl)
    ∙ ap (λ t. (c ∷ label) ++ t) e

pub trim-behind_colon : (value : Str) → IsTrimmed value → trim (behind_colon value) ≡ value
unfolding trim_start trim_end is_whitespace
trim-behind_colon [] h = refl
trim-behind_colon (c ∷ s) h = trim_of_trimmed h
