-- ===== src/Base/Decimal.antt =====
-- Numbers in formatted text: `{n}` and `{n:02X}`.
use Prim.Native.Nat.{ℕ, zero, suc, ◌+◌, ◌/◌, ◌%◌}
use mathlib.Core.List.{[], ◌∷◌}
use kio_protondrive.Base.Strings.{Text}
use kio_protondrive.Base.Tests.{ltb, if◌then◌else◌}

-- Digits in front of `out`. A round for each unit of the number is more than enough.
decimal_onto : ℕ → ℕ → Text → Text
decimal_onto zero n out = out
decimal_onto (suc f) n out =
    let out' = (48 + n % 10) ∷ out in
    let rest = decimal_onto f (n / 10) out' in if ltb n 10 then out' else rest

unfoldable pub decimal : ℕ → Text
unfolding decimal_onto
decimal n = decimal_onto (suc n) n []

unfoldable pub hex_digit : ℕ → ℕ
hex_digit n = if ltb n 10 then 48 + n else 55 + n

-- `{b:02X}`
unfoldable pub hex_byte : ℕ → Text
hex_byte b = hex_digit (b / 16) ∷ hex_digit (b % 16) ∷ []
