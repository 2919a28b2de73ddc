-- ===== src/Common/Decimal.antt =====
-- Decimal output as `format!` writes it: `{n}`, and `{n:03}` and the like.
use Prim.Native.Nat.{ℕ, zero, suc, ◌+◌, ◌-◌, ◌/◌, ◌%◌}
use mathlib.Core.List.{List, [], ◌∷◌, ◌++◌}
use inspect.Common.Lists.{length}
use inspect.Common.Tests.{ltb, if◌then◌else◌}
use inspect.Common.Text.{Str}

unfoldable pub decimal_from : ℕ → ℕ → Str → Str
decimal_from zero n acc = acc
decimal_from (suc fuel) n acc =
    let more = decimal_from fuel (n / 10) ((b'0' + n % 10) ∷ acc) in
    if ltb n 10 then (b'0' + n) ∷ acc else more

unfoldable pub decimal : ℕ → Str
unfolding decimal_from
decimal n = decimal_from (suc n) n []

abbrev pub replicate {ℓ} : {A : Type ℓ} → ℕ → A → List A
replicate zero a = []
replicate (suc n) a = a ∷ replicate n a

-- `{n:0w}`: zeros up to width `w`, nothing cut.
unfoldable pub decimal_padded : ℕ → ℕ → Str
unfolding decimal
decimal_padded w n = replicate (w - length (decimal n)) b'0' ++ decimal n
