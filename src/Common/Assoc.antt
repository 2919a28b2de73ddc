-- ===== src/Common/Assoc.antt =====
-- A hash map as an association list, over a key type with a Boolean equality. The order of the list
-- stands for the map's iteration order.
use Prim.Native.Nat.{ℕ, ◌+◌, ◌≤◌}
use mathlib.Core.Bool.{Bool, true}
use mathlib.Core.List.{List, [], ◌∷◌}
use mathlib.Core.Logic.{◌↔◌, inl, inr}
use mathlib.Core.Option.{Option, none, some}
use mathlib.Core.Path.{◌≡◌, refl}
use native.Mathlib.Omega.{arith}
use inspect.Common.Tests.{if◌then◌else◌, Bool-cases}
use inspect.Common.Text.{Str, str_eq, str_eq_iff}

pub record Eq {ℓ} (A : Type ℓ) : Type ℓ where
  pub beq : A → A → Bool
  pub beq_iff : (a b : A) → (beq a b ≡ true) ↔ (a ≡ b)

instance abbrev pub str-Eq : Eq Str
str-Eq = record { beq = str_eq; beq_iff = str_eq_iff }

module _ {ℓ κ} {K : Type ℓ} {V : Type κ} ⦃eq : Eq K⦄ where
  unfoldable pub lookup : K → List (K × V) → Option V
  lookup k [] = none
  lookup k ((j, v) ∷ m) = if eq.beq j k then some v else lookup k m

  unfoldable pub insert : K → V → List (K × V) → List (K × V)
  insert k v [] = (k, v) ∷ []
  insert k v ((j, w) ∷ m) = if eq.beq j k then (k, v) ∷ m else (j, w) ∷ insert k v m

  unfoldable pub remove : K → List (K × V) → List (K × V)
  remove k [] = []
  remove k ((j, v) ∷ m) = let rest = remove k m in if eq.beq j k then rest else (j, v) ∷ rest

  pub lookup-insert :
      (k j : K) (v : V) (m : List (K × V))
      → lookup j (insert k v m) ≡ (if eq.beq k j then some v else lookup j m)
  unfolding lookup insert
  lookup-insert k j v [] = refl
  lookup-insert k j v ((i, w) ∷ m) =
      ground (arith, eq.beq_iff k j, eq.beq_iff i k, eq.beq_iff i j, lookup-insert k j v m)

  pub lookup-remove :
      (k j : K) (m : List (K × V))
      → lookup j (remove k m) ≡ (if eq.beq k j then none else lookup j m)
  unfolding lookup remove
  lookup-remove k j [] = ground arith
  lookup-remove k j ((i, w) ∷ m) =
      ground (arith, eq.beq_iff k j, eq.beq_iff i k, eq.beq_iff i j, lookup-remove k j m)

  -- The sum of a weight over the entries, and the weight of the entry of one key.
  unfoldable pub total : (K → V → ℕ) → List (K × V) → ℕ
  total w [] = 0
  total w ((k, v) ∷ m) = w k v + total w m

  abbrev pub weight_at : (K → V → ℕ) → K → Option V → ℕ
  weight_at w k none = 0
  weight_at w k (some v) = w k v

  pub total-insert :
      (w : K → V → ℕ) (k : K) (v : V) (m : List (K × V))
      → total w (insert k v m) + weight_at w k (lookup k m) ≡ total w m + w k v
  unfolding total insert lookup
  total-insert w k v [] = omega arith
  total-insert w k v ((j, u) ∷ m) = elim (Bool-cases (eq.beq j k)) [
    | inl same ↦ let e : j ≡ k = (eq.beq_iff j k).0 same in rw (same, e) (omega arith)
    | inr other ↦ rw other (omega (arith, total-insert w k v m))
  ]

  pub total-remove :
      (w : K → V → ℕ) (k : K) (m : List (K × V))
      → total w (remove k m) + weight_at w k (lookup k m) ≤ total w m
  unfolding total remove lookup
  total-remove w k [] = omega arith
  total-remove w k ((j, u) ∷ m) = elim (Bool-cases (eq.beq j k)) [
    | inl same ↦
        let e : j ≡ k = (eq.beq_iff j k).0 same in rw (same, e) (omega (arith, total-remove w k m))
    | inr other ↦ rw other (omega (arith, total-remove w k m))
  ]
