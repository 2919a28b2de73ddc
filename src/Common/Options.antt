-- ===== src/Common/Options.antt =====
-- Options: tests, and the first of two.
use mathlib.Core.Bool.{Bool, true, false}
use mathlib.Core.Option.{Option, none, some}

module _ {ℓ} {A : Type ℓ} where
  abbrev pub is_some : Option A → Bool
  is_some none = false
  is_some (some x) = true

  abbrev pub or_else : Option A → Option A → Option A
  or_else none b = b
  or_else (some x) b = some x

  abbrev pub unwrap_or : Option A → A → A
  unwrap_or none b = b
  unwrap_or (some x) b = x
