-- ===== src/Decimal/Digits.antt =====
-- The digits of a coefficient, and rounding a quotient half to even.
use accounting_tool.Prelude.{ℕ, zero, suc, ◌+◌, ◌*◌, ◌/◌, ◌%◌, if◌then◌else◌, ltb}

-- The number of decimal digits of `n`, for `n < 10 ^ fuel`; 1 for zero, as `len(str(0))`.
num_digits_from : ℕ → ℕ → ℕ
num_digits_from zero n = 1
num_digits_from (suc fuel) n =
    let rest = num_digits_from fuel (n / 10) in if ltb n 10 then 1 else rest + 1

unfoldable pub num_digits : ℕ → ℕ
unfolding num_digits_from
num_digits n = num_digits_from n n

-- The whole number nearest to `n / d`, the even one of two that are as near.
unfoldable pub half_even : ℕ → ℕ → ℕ
half_even n d =
    let q = n / d in
    let r = n % d in if ltb (2 * r) d then q else if ltb d (2 * r) then q + 1 else q + q % 2
