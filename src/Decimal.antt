-- ===== src/Decimal.antt =====
-- Python's `Decimal`, as the code computes with it: a signed coefficient and a number of decimal
-- places.
mod Digits
pub mod Laws
pub mod Sums
pub mod Value
pub mod Congruence
pub mod Signs
pub mod Near
pub mod Rounding
unfoldable pub use Digits.{num_digits, half_even}
use accounting_tool.Prelude.{
  ℕ, ◌+◌, ◌-◌, ◌*◌, ◌/◌, ◌%◌, ◌^◌, max, Bool, List, [], ◌∷◌, if◌then◌else◌, leb, ltb, ◌==◌, not,
  Option, none, some,
}
use accounting_tool.Prelude.Int.{ℤ, pos, negsuc, ◌+ℤ◌, ◌-ℤ◌, ◌*ℤ◌, ltb_ℤ, pos_part, neg_part}

-- `coeff * 10 ^ -places`. `Money` is another name of it, as in types.py.
pub record Decimal : Type 0 where
  pub coeff : ℤ
  pub places : ℕ

abbrev pub Money : Type 0
Money = Decimal

-- `Decimal("n")` and `Decimal("n.dd")` with `k` digits behind the point.
abbrev pub whole : ℕ → Decimal
whole n = record { coeff = pos n; places = 0 }

abbrev pub fraction : ℕ → ℕ → Decimal
fraction n k = record { coeff = pos n; places = k }

abbrev pub zero_money : Decimal
zero_money = whole 0

-- The coefficient over `k` places, for `k` at least the places that the number has.
unfoldable pub at : ℕ → Decimal → ℤ
at k d = d.coeff *ℤ pos (10 ^ (k - d.places))

-- The operators keep the exponent as Python does: the larger number of places in a sum, both
-- together in a product.
unfoldable pub plus : Decimal → Decimal → Decimal
plus a b = let k = max a.places b.places in record { coeff = at k a +ℤ at k b; places = k }

unfoldable pub minus : Decimal → Decimal → Decimal
minus a b = let k = max a.places b.places in record { coeff = at k a -ℤ at k b; places = k }

unfoldable pub times : Decimal → Decimal → Decimal
times a b = record { coeff = a.coeff *ℤ b.coeff; places = a.places + b.places }

-- Comparisons are by value: 1.0 and 1.00 are equal.
unfoldable pub less : Decimal → Decimal → Bool
unfolding at
less a b = let k = max a.places b.places in ltb_ℤ (at k a) (at k b)

abbrev pub at_most : Decimal → Decimal → Bool
at_most a b = not (less b a)

unfoldable pub same : Decimal → Decimal → Bool
unfolding at
same a b =
    let k = max a.places b.places in
    pos_part (at k a) + neg_part (at k b) == pos_part (at k b) + neg_part (at k a)

unfoldable pub absolute : Decimal → Decimal
absolute a = record { coeff = pos (pos_part a.coeff + neg_part a.coeff); places = a.places }

-- `sum(xs, start)`
unfoldable pub total_from : Decimal → List Decimal → Decimal
total_from acc [] = acc
total_from acc (x ∷ xs) = total_from (plus acc x) xs

-- `sum(xs, Decimal("0"))`
unfoldable pub total : List Decimal → Decimal
unfolding total_from
total xs = total_from zero_money xs

abbrev pub magnitude : ℤ → ℕ
magnitude z = pos_part z + neg_part z

-- `n`, or `-n` where one of the two signs is negative.
abbrev pub signed : ℤ → ℤ → ℕ → ℤ
signed (pos _) (pos _) n = pos n
signed (negsuc _) (negsuc _) n = pos n
signed _ _ n = pos 0 -ℤ pos n

-- `d.quantize(Decimal(10) ** -k)`
unfoldable pub quantize : ℕ → Decimal → Decimal
unfolding half_even at
quantize k d = if leb d.places k then record { coeff = at k d; places = k } else record {
  coeff = signed d.coeff (pos 0) (half_even (magnitude d.coeff) (10 ^ (d.places - k)));
  places = k;
}

-- `a / b` for `b` other than zero, rounded to the 28 digits of the default context. The quotient
-- of the scaled coefficients has 29 or 30 digits, and the last one or two are rounded away.
unfoldable pub quotient : Decimal → Decimal → Decimal
unfolding half_even num_digits
quotient a b =
    let n = magnitude a.coeff in
    let d = magnitude b.coeff in
    let k = num_digits d + 29 in
    let l = num_digits n in
    let top = n * 10 ^ (k - l) in
    let bottom = d * 10 ^ (l - k) in
    let drop = num_digits (top / bottom) - 28 in
    let c = half_even top (bottom * 10 ^ drop) in
    let up = a.places + k in
    let down = b.places + l + drop in
    record { coeff = signed a.coeff b.coeff (c * 10 ^ (down - up)); places = up - down }

-- A division by zero raises.
unfoldable pub divide : Decimal → Decimal → Option Decimal
unfolding quotient same
divide a b = if same b zero_money then none else some (quotient a b)

-- For evaluation: the line opens all of the arithmetic.
unfoldable pub arithmetic : Unit {0}
unfolding ◌+ℤ◌ ◌-ℤ◌ ◌*ℤ◌ at plus minus times less same absolute total total_from quantize quotient
    divide
arithmetic = tt

-- An int in a decimal expression.
abbrev pub of_int : ℤ → Decimal
of_int z = record { coeff = z; places = 0 }
