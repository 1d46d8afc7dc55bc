-- ===== src/Operator/Decimal.antt =====
-- The verb %d of the calls of fmt.Sprintf, on a number that is not negative.
pub mod Laws
use cloud_native_tour.Common.{ℕ, suc, zero, ◌+◌, ◌/◌, ◌%◌, Text, [], ◌∷◌, ◌++◌, ltb, if◌then◌else◌}

-- Each round but the last takes one digit; `suc n` rounds are enough for `n`.
unfoldable pub decimal_digits : ℕ → ℕ → Text
decimal_digits zero n = []
decimal_digits (suc fuel) n =
    let rest = decimal_digits fuel (n / 10) in
    if ltb n 10 then (48 + n) ∷ [] else rest ++ ((48 + n % 10) ∷ [])

unfoldable pub decimal : ℕ → Text
decimal n = decimal_digits (suc n) n
