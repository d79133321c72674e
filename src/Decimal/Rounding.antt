-- ===== src/Decimal/Rounding.antt =====
-- How far `quantize` moves a decimal: by half a unit of the last place at most.
use accounting_tool.Decimal.Near.{NearAt, Near, Near-of_at}
use accounting_tool.Decimal.Laws.{at-places, at_self}
use accounting_tool.Prelude.Mul.{*ℤ-pos, *ℤ--ℤ, *ℤ-zero, pow_pos}
use accounting_tool.Prelude.Int.{ℤ, pos, ◌*ℤ◌, ◌≤ℤ◌, ◌+ℤ◌, int_laws, negsuc}
use accounting_tool.Decimal.Value.{Same, Same-of_at}
use accounting_tool.Prelude.{
  ℕ, ◌<◌, ◌*◌, ◌≤◌, ◌+◌, ◌/◌, ◌≡◌, ◌∙◌, arith, Bool-cases, ◌%◌, inl, inr, ◌⊎◌, suc, ◌^◌, ◌-◌, max,
  leb, ap, refl, false, true, subst,
}
use accounting_tool.Decimal.{half_even, Decimal, fraction, magnitude, signed, at, quantize}
use native.Mathlib.Nat.{mod-lt, mod-add-div', add-mul, pow-suc}

-- Rounding is down or up, to the nearer side.
half_even-cases :
    (n d : ℕ)
    → ((half_even n d ≡ n / d) × (2 * (n % d) ≤ d))
      ⊎ ((half_even n d ≡ n / d + 1) × (d ≤ 2 * (n % d)))
unfolding half_even
half_even-cases n d = ground arith

half_even_bound :
    (n d : ℕ)
    → 0 < d
    → (2 * (half_even n d * d) ≤ 2 * n + d) × (2 * n ≤ 2 * (half_even n d * d) + d)
half_even_bound n d h =
    let small = mod-lt n h in
    let parts = mod-add-div' n d in
    let up : (n / d + 1) * d ≡ n / d * d + d = add-mul (n / d) 1 d ∙ omega arith in
    elim (half_even-cases n d) [
      | inl (e, near) ↦ rw e (omega arith, omega arith)
      | inr (e, near) ↦ rw (e, up) (omega arith, omega arith)
    ]

-- The same for a signed coefficient, in units of which `2 * e` make up one of the last place.
signed_bound :
    (c : ℤ) (r d e : ℕ)
    → 2 * (r * d) ≤ 2 * magnitude c + d
    → 2 * magnitude c ≤ 2 * (r * d) + d
    → d ≡ 2 * e
    → (signed c (pos 0) r *ℤ pos d ≤ℤ c +ℤ pos e) × (c ≤ℤ signed c (pos 0) r *ℤ pos d +ℤ pos e)
signed_bound (pos n) r d e h g k = rw (*ℤ-pos r d) (omega int_laws, omega int_laws)
signed_bound (negsuc n) r d e h g k =
    rw (*ℤ--ℤ (pos 0) (pos r) (pos d), *ℤ-zero d, *ℤ-pos r d) (omega int_laws, omega int_laws)

-- Half a unit of the last of `k` places.
abbrev pub half_unit : ℕ → Decimal
half_unit k = fraction 5 (suc k)

pub quantize-places : (k : ℕ) (d : Decimal) → (quantize k d).places ≡ k
unfolding quantize
quantize-places k d = ground arith

-- With no more places than `k` nothing is rounded.
quantize_short :
    (k : ℕ) (d : Decimal) → d.places ≤ k → quantize k d ≡ record { coeff = at k d; places = k }
unfolding quantize
quantize_short k d h = let e : leb d.places k ≡ true = ground arith in rw (quantize, e)

quantize_long :
    (k : ℕ) (d : Decimal)
    → k < d.places
    → quantize k d ≡ record {
      coeff = signed d.coeff (pos 0) (half_even (magnitude d.coeff) (10 ^ (d.places - k)));
      places = k;
    }
unfolding quantize
quantize_long k d h = let e : leb d.places k ≡ false = ground arith in rw (quantize, e)

at_of : (m : ℕ) (c : ℤ) (k : ℕ) → at m (record { coeff = c; places = k }) ≡ c *ℤ pos (10 ^ (m - k))
unfolding at
at_of m c k = refl

pub at-quantize : (k m : ℕ) (d : Decimal) → d.places ≤ k → k ≤ m → at m (quantize k d) ≡ at m d
at-quantize k m d h g = ap (at m) (quantize_short k d h) ∙ at_of m (at k d) k ∙ at-places d k m h g

pub quantize-Same : (k : ℕ) (d : Decimal) → d.places ≤ k → Same (quantize k d) d
quantize-Same k d h =
    Same-of_at (quantize k d) d k (omega (arith, quantize-places k d)) h
      (at-quantize k k d h (omega arith))

at-half_unit : (k m : ℕ) → at m (half_unit k) ≡ pos (5 * 10 ^ (m - suc k))
at-half_unit k m = at_of m (pos 5) (suc k) ∙ *ℤ-pos 5 (10 ^ (m - suc k))

near_long : (k : ℕ) (d : Decimal) → k < d.places → NearAt d.places (half_unit k) (quantize k d) d
near_long k d h =
    let p = d.places in
    let unit = 10 ^ (p - k) in
    let r = half_even (magnitude d.coeff) unit in
    let (lo, hi) = half_even_bound (magnitude d.coeff) unit (pow_pos (p - k)) in
    let count : p - k ≡ suc (p - suc k) = omega arith in
    let doubled : unit ≡ 2 * (5 * 10 ^ (p - suc k)) =
      ap (λ (e : ℕ). 10 ^ e) count ∙ pow-suc 10 (p - suc k) ∙ omega arith in
    rw
      (
        quantize_long k d h,
        at_of p (signed d.coeff (pos 0) r) k,
        at-half_unit k p,
        at_self d p refl,
      )
      (signed_bound d.coeff r unit (5 * 10 ^ (p - suc k)) lo hi doubled)

-- Whether anything is rounded or not, the two are near over a common number of places.
near_at : (k : ℕ) (d : Decimal) → NearAt (max d.places (suc k)) (half_unit k) (quantize k d) d
near_at k d = elim (Bool-cases (leb d.places k)) [
  | inl short ↦
      let m = max d.places (suc k) in
      rw (at-quantize k m d (ground arith) (omega arith), at-half_unit k m)
        (omega int_laws, omega int_laws)
  | inr long ↦
      let same_places : d.places ≡ max d.places (suc k) = ground arith in
      subst (λ m. NearAt m (half_unit k) (quantize k d) d) same_places
        (near_long k d (ground arith))
]

pub quantize-Near : (k : ℕ) (d : Decimal) → Near (half_unit k) (quantize k d) d
quantize-Near k d =
    Near-of_at (half_unit k) (quantize k d) d (max d.places (suc k)) (omega arith)
      (omega (arith, quantize-places k d)) (omega arith) (near_at k d)
