-- ===== src/Json/Plain.antt =====
-- The JSON values that serde_json promises to read back from what it writes: their numbers are integers
-- of 64 bits, the keys of their objects ascend, and their nesting stays below the limit of its parser,
-- which refuses the 128th array or object inside one another.
use inspect.Common.{
  str_ltb, ℕ, ◌-◌, ◌≤◌, ◌<◌, ◌≡◌, ◌⊎◌, Bool, true, ◌&&◌, ◌||◌, [], ◌∷◌, Str, ltb, decimal, arith,
}
use inspect.Json.{
  Value, Items, Fields, null, bool, number, string, array, object, nil, item, end, field,
}

abbrev pub max_depth : ℕ
max_depth = 127

-- Unicode scalar values.
abbrev pub is_scalar : ℕ → Bool
is_scalar c = ltb c 55296 || (ltb 57343 c && ltb c 1114112)

abbrev pub all_scalar : Str → Bool
all_scalar [] = true
all_scalar (c ∷ s) = is_scalar c && all_scalar s

abbrev pub IsText : Str → Type 0
IsText s = all_scalar s ≡ true

-- The numbers of the types u64 and i64, as they are shown.
abbrev pub IsInteger : Str → Type 0
IsInteger text =
    (n : ℕ) × (((n < 18446744073709551616) × (text ≡ decimal n))
      ⊎ ((0 < n) × (n ≤ 9223372036854775808) × (text ≡ b'-' ∷ decimal n)))

abbrev pub KeyBelow : Str → Fields → Type 0
KeyBelow key end = Unit
KeyBelow key (field k v fields) = str_ltb key k ≡ true

-- With at most so many arrays and objects inside one another.
unfoldable mutual
  pub IsPlain : ℕ → Value → Type 0
  IsPlain depth null = Unit
  IsPlain depth (bool b) = Unit
  IsPlain depth (number n) = IsInteger n
  IsPlain depth (string s) = IsText s
  IsPlain depth (array items) = (0 < depth) × ArePlainItems (depth - 1) items
  IsPlain depth (object fields) = (0 < depth) × ArePlainFields (depth - 1) fields

  pub ArePlainItems : ℕ → Items → Type 0
  ArePlainItems depth nil = Unit
  ArePlainItems depth (item v items) = IsPlain depth v × ArePlainItems depth items

  pub ArePlainFields : ℕ → Fields → Type 0
  ArePlainFields depth end = Unit
  ArePlainFields depth (field key v fields) =
      IsText key × KeyBelow key fields × IsPlain depth v × ArePlainFields depth fields

mutual
  unfolding IsPlain

  pub IsPlain-deeper : (d e : ℕ) (v : Value) → d ≤ e → IsPlain d v → IsPlain e v
  IsPlain-deeper d e null h p = tt
  IsPlain-deeper d e (bool b) h p = tt
  IsPlain-deeper d e (number n) h p = p
  IsPlain-deeper d e (string s) h p = p
  IsPlain-deeper d e (array items) h (pos, p) =
      (omega (arith, h, pos), ArePlainItems-deeper (d - 1) (e - 1) items (omega (arith, h)) p)
  IsPlain-deeper d e (object fields) h (pos, p) =
      (omega (arith, h, pos), ArePlainFields-deeper (d - 1) (e - 1) fields (omega (arith, h)) p)

  ArePlainItems-deeper :
      (d e : ℕ) (items : Items) → d ≤ e → ArePlainItems d items → ArePlainItems e items
  ArePlainItems-deeper d e nil h p = tt
  ArePlainItems-deeper d e (item v items) h (p, q) =
      (IsPlain-deeper d e v h p, ArePlainItems-deeper d e items h q)

  ArePlainFields-deeper :
      (d e : ℕ) (fields : Fields) → d ≤ e → ArePlainFields d fields → ArePlainFields e fields
  ArePlainFields-deeper d e end h p = tt
  ArePlainFields-deeper d e (field key v fields) h (text, below, p, q) =
      (text, below, IsPlain-deeper d e v h p, ArePlainFields-deeper d e fields h q)
