-- ===== src/Prelude/Mul.antt =====
-- Products of integers, and powers of ten.
use Prim.Native.Nat.{ℕ, zero, suc, ◌+◌, ◌*◌, ◌^◌, ◌<◌, ◌≤◌}
use mathlib.Core.Path.{◌≡◌, ap, sym, ◌∙◌}
use mathlib.Core.Logic.{◌↔◌}
use native.Mathlib.Omega.{arith}
use native.Mathlib.Nat.{
  pow-suc, pow-zero, mul_assoc, add-zero, add-suc, mul-one, zero-mul, add-mul,
  eq_of_mul-eq-mul_right, le_of_mul-le-mul_right, mul-le-mul_right,
}
use accounting_tool.Prelude.Int.{
  ℤ, pos, pos_part, neg_part, ◌+ℤ◌, ◌-ℤ◌, ◌*ℤ◌, int_laws, eq_of_parts, +ℤ_parts, -ℤ_parts, ◌≤ℤ◌,
}

pub *ℤ_parts :
    (a b : ℤ)
    → pos_part (a *ℤ b) + (pos_part a * neg_part b + neg_part a * pos_part b)
      ≡ neg_part (a *ℤ b) + (pos_part a * pos_part b + neg_part a * neg_part b)
unfolding ◌*ℤ◌
*ℤ_parts a b = ground arith

pub *ℤ_comm : (a b : ℤ) → a *ℤ b ≡ b *ℤ a
*ℤ_comm a b = omega (int_laws, *ℤ_parts a b, *ℤ_parts b a)

-- An equation of two sums, multiplied by a number.
scaled : (k : ℕ) {x y : ℕ} → x ≡ y → x * k ≡ y * k
scaled k e = ap (λ (t : ℕ). t * k) e

pub *ℤ-+ℤ : (a b c : ℤ) → (a +ℤ b) *ℤ c ≡ a *ℤ c +ℤ b *ℤ c
*ℤ-+ℤ a b c = omega (
  int_laws,
  *ℤ_parts (a +ℤ b) c,
  *ℤ_parts a c,
  *ℤ_parts b c,
  scaled (pos_part c) (+ℤ_parts a b),
  scaled (neg_part c) (+ℤ_parts a b),
)

pub *ℤ--ℤ : (a b c : ℤ) → (a -ℤ b) *ℤ c ≡ a *ℤ c -ℤ b *ℤ c
*ℤ--ℤ a b c = omega (
  int_laws,
  *ℤ_parts (a -ℤ b) c,
  *ℤ_parts a c,
  *ℤ_parts b c,
  scaled (pos_part c) (-ℤ_parts a b),
  scaled (neg_part c) (-ℤ_parts a b),
)

pub *ℤ_assoc : (a b c : ℤ) → a *ℤ b *ℤ c ≡ a *ℤ (b *ℤ c)
*ℤ_assoc a b c = omega (
  int_laws,
  *ℤ_parts (a *ℤ b) c,
  *ℤ_parts a (b *ℤ c),
  scaled (pos_part c) (*ℤ_parts a b),
  scaled (neg_part c) (*ℤ_parts a b),
  scaled (pos_part a) (*ℤ_parts b c),
  scaled (neg_part a) (*ℤ_parts b c),
)

pub *ℤ_one : (a : ℤ) → a *ℤ pos 1 ≡ a
*ℤ_one a = omega (int_laws, *ℤ_parts a (pos 1))

pub *ℤ_cancel_pos : (a b : ℤ) (n : ℕ) → 0 < n → a *ℤ pos n ≡ b *ℤ pos n → a ≡ b
*ℤ_cancel_pos a b n h e =
    let f : pos_part a * n + neg_part b * n ≡ pos_part b * n + neg_part a * n =
      omega (int_laws, *ℤ_parts a (pos n), *ℤ_parts b (pos n), ap pos_part e, ap neg_part e) in
    eq_of_parts a b (eq_of_mul-eq-mul_right n h _ _ (simp add-mul f))

pub pow-add : (b m n : ℕ) → b ^ (m + n) ≡ b ^ m * b ^ n
pow-add b m zero = rw (add-zero, pow-zero, mul-one)
pow-add b m (suc n) = rw (add-suc, pow-suc b (m + n), pow-suc b n, pow-add b m n, mul_assoc)

pub pow_pos : (n : ℕ) → 0 < 10 ^ n
pow_pos zero = omega arith
pow_pos (suc n) = rw pow-suc (omega (arith, pow_pos n))

pub *ℤ-pos : (m n : ℕ) → pos m *ℤ pos n ≡ pos (m * n)
*ℤ-pos m n = omega (int_laws, *ℤ_parts (pos m) (pos n))

pub *ℤ-zero : (n : ℕ) → pos 0 *ℤ pos n ≡ pos 0
*ℤ-zero n = *ℤ-pos 0 n ∙ ap pos (zero-mul n)

pub *ℤ_interchange : (a b p q : ℤ) → a *ℤ b *ℤ (p *ℤ q) ≡ a *ℤ p *ℤ (b *ℤ q)
*ℤ_interchange a b p q =
    *ℤ_assoc a b (p *ℤ q)
    ∙ ap (λ t. a *ℤ t) (sym (*ℤ_assoc b p q) ∙ ap (λ t. t *ℤ q) (*ℤ_comm b p) ∙ *ℤ_assoc p b q)
    ∙ sym (*ℤ_assoc a p (b *ℤ q))

-- A positive factor keeps the order both ways.
pub *ℤ-le_iff : (a b : ℤ) (n : ℕ) → 0 < n → (a *ℤ pos n ≤ℤ b *ℤ pos n) ↔ (a ≤ℤ b)
*ℤ-le_iff a b n h = (
  λ e.
      le_of_mul-le-mul_right {k = n}
        (simp add-mul (omega (arith, *ℤ_parts a (pos n), *ℤ_parts b (pos n)))) h,
  λ e.
      let f : (pos_part a + neg_part b) * n ≤ (pos_part b + neg_part a) * n =
        mul-le-mul_right n e in
      omega (arith, *ℤ_parts a (pos n), *ℤ_parts b (pos n)),
)
