-- ===== src/Common/Numerals.antt =====
-- The decimal numeral of a number below 2 ^ 16 is read back as the number.
use Prim.Native.Nat.{ℕ, zero, suc, ◌+◌, ◌-◌, ◌*◌, ◌/◌, ◌%◌, ◌<◌, ◌≤◌}
use mathlib.Core.Path.{◌≡◌, refl, ap, sym, ◌∙◌}
use mathlib.Core.Bool.{false}
use mathlib.Core.List.{[], ◌∷◌}
use mathlib.Core.Logic.{◌⊎◌, inl, inr}
use mathlib.Core.Option.{some}
use native.Mathlib.Omega.{arith}
use inspect.Common.Decimal.{decimal, decimal_from}
use inspect.Common.Lines.{u16_from, parse_u16}
use inspect.Common.Tests.{ltb, Bool-cases}
use inspect.Common.Text.{Str, is_whitespace}
use inspect.Common.Lists.{All}
use inspect.Common.Trimming.{IsTrimmed, StartsPlain, EndsPlain}
use inspect.Common.Splitting.{IsLine, Lacks}

u16_from-digit :
    (acc d : ℕ) (s : Str)
    → d < 10
    → acc * 10 + d < 65536
    → u16_from acc ((48 + d) ∷ s) ≡ u16_from (acc * 10 + d) s
unfolding u16_from
u16_from-digit acc d s h k = let e : 48 + d - 48 ≡ d = omega arith in rw e (ground arith)

u16_from-decimal_from :
    (fuel n : ℕ) (acc : Str)
    → n < fuel
    → n < 65536
    → u16_from 0 (decimal_from fuel n acc) ≡ u16_from n acc
unfolding decimal_from
u16_from-decimal_from zero n acc h k = absurd (omega arith)
u16_from-decimal_from (suc fuel) n acc h k = elim (Bool-cases (ltb n 10)) [
  | inl small ↦
      rw small (
        u16_from-digit 0 n acc (ground arith) (omega arith)
        ∙ ap (λ m. u16_from m acc) (omega arith))
  | inr large ↦
      let shorter : n / 10 < fuel = ground arith in
      rw large (
        u16_from-decimal_from fuel (n / 10) ((48 + n % 10) ∷ acc) shorter (omega arith)
        ∙ u16_from-digit (n / 10) (n % 10) acc (omega arith) (omega arith)
        ∙ ap (λ m. u16_from m acc) (omega arith))
]

-- A numeral begins with a digit.
pub decimal_from-digit :
    (fuel n : ℕ) (acc : Str)
    → n < fuel
    → (d : ℕ) × (s : Str) × (decimal_from fuel n acc ≡ (48 + d) ∷ s) × (d < 10)
unfolding decimal_from
decimal_from-digit zero n acc h = absurd (omega arith)
decimal_from-digit (suc fuel) n acc h = elim (Bool-cases (ltb n 10)) [
  | inl small ↦ (n, acc, rw small refl, ground arith)
  | inr large ↦
      let (d, s, e, lt) = decimal_from-digit fuel (n / 10) ((48 + n % 10) ∷ acc) (ground arith) in
      (d, s, rw large e, lt)
]

pub decimal-digit : (n : ℕ) → (d : ℕ) × (s : Str) × (decimal n ≡ (48 + d) ∷ s) × (d < 10)
unfolding decimal
decimal-digit n = decimal_from-digit (suc n) n [] (omega arith)

parse_u16-unsigned :
    (d : ℕ) (s : Str) → d < 10 → parse_u16 ((48 + d) ∷ s) ≡ u16_from 0 ((48 + d) ∷ s)
unfolding parse_u16
parse_u16-unsigned d s h = ground arith

pub parse_u16-decimal : (n : ℕ) → n < 65536 → parse_u16 (decimal n) ≡ some n
unfolding decimal u16_from
parse_u16-decimal n h =
    let (d, s, e, lt) = decimal-digit n in
    ap parse_u16 e
    ∙ parse_u16-unsigned d s lt
    ∙ ap (u16_from 0) (sym e)
    ∙ u16_from-decimal_from (suc n) n [] (omega arith) h

abbrev IsDigit : ℕ → Type 0
IsDigit c = (48 ≤ c) × (c ≤ 57)

decimal_from-digits :
    (fuel n : ℕ) (acc : Str) → All IsDigit acc → All IsDigit (decimal_from fuel n acc)
unfolding decimal_from
decimal_from-digits zero n acc h = h
decimal_from-digits (suc fuel) n acc h =
    ground (arith, decimal_from-digits fuel (n / 10) ((48 + n % 10) ∷ acc))

digit-not_whitespace : (c : ℕ) → IsDigit c → is_whitespace c ≡ false
unfolding is_whitespace
digit-not_whitespace c h = ground arith

digits-StartsPlain : (s : Str) → All IsDigit s → StartsPlain s
digits-StartsPlain [] h = tt
digits-StartsPlain (c ∷ s) h = digit-not_whitespace c h.0

digits-EndsPlain : (s : Str) → All IsDigit s → EndsPlain s
digits-EndsPlain [] h = tt
digits-EndsPlain (c ∷ []) h = digit-not_whitespace c h.0
digits-EndsPlain (c ∷ d ∷ s) h = digits-EndsPlain (d ∷ s) h.1

digits-IsLine : (s : Str) → All IsDigit s → IsLine s
digits-IsLine [] h = tt
digits-IsLine (c ∷ s) (d, h) = ((ground arith, ground arith), digits-IsLine s h)

pub decimal-IsTrimmed : (n : ℕ) → IsTrimmed (decimal n)
unfolding decimal
decimal-IsTrimmed n =
    let digits = decimal_from-digits (suc n) n [] tt in
    record { starts = digits-StartsPlain _ digits; ends = digits-EndsPlain _ digits }

pub decimal-IsLine : (n : ℕ) → IsLine (decimal n)
unfolding decimal
decimal-IsLine n = digits-IsLine _ (decimal_from-digits (suc n) n [] tt)

-- A numeral holds no character that is not a digit.
digits-Lacks : (c : ℕ) (s : Str) → 57 < c → All IsDigit s → Lacks c s
digits-Lacks c [] h k = tt
digits-Lacks c (d ∷ s) h (digit, k) = (ground arith, digits-Lacks c s h k)

digits-Lacks_below : (c : ℕ) (s : Str) → c < 48 → All IsDigit s → Lacks c s
digits-Lacks_below c [] h k = tt
digits-Lacks_below c (d ∷ s) h (digit, k) = (ground arith, digits-Lacks_below c s h k)

pub decimal-Lacks : (c n : ℕ) → (57 < c) ⊎ (c < 48) → Lacks c (decimal n)
unfolding decimal
decimal-Lacks c n (inl above) = digits-Lacks c _ above (decimal_from-digits (suc n) n [] tt)
decimal-Lacks c n (inr below) = digits-Lacks_below c _ below (decimal_from-digits (suc n) n [] tt)
