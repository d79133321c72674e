-- ===== src/Decimal/Signs.antt =====
-- The signs of decimals and of quotients.
use accounting_tool.Decimal.Laws.{at-zero_money, at_self}
use accounting_tool.Decimal.Value.{AtMost, at_of_AtMost, at_most_iff, AtMost-of_at}
use accounting_tool.Prelude.Int.{ℤ, pos, ◌≤ℤ◌, negsuc, ≤ℤ_total}
use accounting_tool.Decimal.{Decimal, quotient, at_most, zero_money, signed, at}
use accounting_tool.Prelude.{ℕ, ◌↔◌, ◌≡◌, arith, false, inl, inr, subst, true, sym, refl}

pub nonneg_iff : (d : Decimal) → AtMost zero_money d ↔ (pos 0 ≤ℤ d.coeff)
nonneg_iff d =
    let k = d.places in
    let z = at-zero_money k in
    let w = at_self d k refl in
    (
      λ h.
          let g = at_of_AtMost zero_money d k (omega arith) (omega arith) h in
          subst (λ t. pos 0 ≤ℤ t) w (subst (λ t. t ≤ℤ at k d) z g),
      λ h.
          AtMost-of_at zero_money d k (omega arith) (omega arith)
            (subst (λ t. t ≤ℤ at k d) (sym z) (subst (λ t. pos 0 ≤ℤ t) (sym w) h)),
    )

pub AtMost-total : (d : Decimal) → at_most d zero_money ≡ false → AtMost zero_money d
AtMost-total d h = elim (≤ℤ_total (pos 0) d.coeff) [
  | inl up ↦ (nonneg_iff d).1 up
  | inr down ↦
      let k = d.places in
      let low : at_most d zero_money ≡ true = (at_most_iff d zero_money).1 (
        AtMost-of_at d zero_money k (omega arith) (omega arith) (
          subst (λ t. at k d ≤ℤ t) (sym (at-zero_money k))
            (subst (λ t. t ≤ℤ pos 0) (sym (at_self d k refl)) down))) in
      absurd (cc)
]

signed_nonneg : (x y : ℤ) (n : ℕ) → pos 0 ≤ℤ x → pos 0 ≤ℤ y → pos 0 ≤ℤ signed x y n
signed_nonneg (pos a) (pos b) n h g = omega arith
signed_nonneg (pos a) (negsuc b) n h g = absurd (omega arith)
signed_nonneg (negsuc a) y n h g = absurd (omega arith)

pub quotient_nonneg :
    (a b : Decimal) → AtMost zero_money a → AtMost zero_money b → AtMost zero_money (quotient a b)
unfolding quotient
quotient_nonneg a b h g =
    (nonneg_iff (quotient a b)).1
      (signed_nonneg a.coeff b.coeff _ ((nonneg_iff a).0 h) ((nonneg_iff b).0 g))
