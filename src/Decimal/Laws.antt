-- ===== src/Decimal/Laws.antt =====
-- The exact operations on decimals, through the coefficient over a common number of places.
use accounting_tool.Prelude.{ℕ, ◌+◌, ◌-◌, ◌^◌, ◌≤◌, max, ◌≡◌, refl, sym, ap, ap₂, ◌∙◌, arith}
use accounting_tool.Prelude.Int.{ℤ, pos, ◌+ℤ◌, ◌-ℤ◌, ◌*ℤ◌, int_laws, +ℤ_comm, +ℤ_assoc}
use accounting_tool.Prelude.Mul.{
  *ℤ_comm, *ℤ_assoc, *ℤ_one, *ℤ-+ℤ, *ℤ--ℤ, *ℤ-pos, pow-add, *ℤ-zero, *ℤ_interchange,
}
use accounting_tool.Decimal.{Decimal, at, plus, minus, times, zero_money}

pub decimal_path :
    {c d : ℤ} {m n : ℕ}
    → c ≡ d
    → m ≡ n
    → ◌≡◌ {A = Decimal} (record { coeff = c; places = m }) (record { coeff = d; places = n })
decimal_path p q = λ i. record { coeff = p i; places = q i }

-- A power of ten moves through the places.
shift : (z : ℤ) (a b c : ℕ) → a + b ≡ c → z *ℤ pos (10 ^ a) *ℤ pos (10 ^ b) ≡ z *ℤ pos (10 ^ c)
shift z a b c e = rw (*ℤ_assoc, *ℤ-pos, ← pow-add 10 a b, e)

pub at-places :
    (d : Decimal) (j k : ℕ) → d.places ≤ j → j ≤ k → at j d *ℤ pos (10 ^ (k - j)) ≡ at k d
unfolding at
at-places d j k h g = shift d.coeff (j - d.places) (k - j) (k - d.places) (omega arith)

at_lem : (k : ℕ) (d : Decimal) → at k d ≡ d.coeff *ℤ pos (10 ^ (k - d.places))
unfolding at
at_lem k d = refl

plus_lem :
    (a b : Decimal)
    → plus a b ≡ record {
      coeff = at (max a.places b.places) a +ℤ at (max a.places b.places) b;
      places = max a.places b.places;
    }
unfolding plus
plus_lem a b = refl

pub plus-places : (a b : Decimal) → (plus a b).places ≡ max a.places b.places
unfolding plus
plus-places a b = refl

pub minus-places : (a b : Decimal) → (minus a b).places ≡ max a.places b.places
unfolding minus
minus-places a b = refl

module _ (a b : Decimal) (k : ℕ) (ha : a.places ≤ k) (hb : b.places ≤ k) where
  -- Over a common number of places the operations are those of the integers.
  pub at-plus : at k (plus a b) ≡ at k a +ℤ at k b
  unfolding plus
  at-plus =
      let m = max a.places b.places in
      at_lem k (plus a b)
      ∙ *ℤ-+ℤ (at m a) (at m b) (pos (10 ^ (k - m)))
      ∙ ap₂ ◌+ℤ◌ (at-places a m k (omega arith) (omega arith))
          (at-places b m k (omega arith) (omega arith))

  pub at-minus : at k (minus a b) ≡ at k a -ℤ at k b
  unfolding minus
  at-minus =
      let m = max a.places b.places in
      at_lem k (minus a b)
      ∙ *ℤ--ℤ (at m a) (at m b) (pos (10 ^ (k - m)))
      ∙ ap₂ ◌-ℤ◌ (at-places a m k (omega arith) (omega arith))
          (at-places b m k (omega arith) (omega arith))

-- A number is its coefficient over its own places.
pub at_self : (d : Decimal) (k : ℕ) → d.places ≡ k → at k d ≡ d.coeff
unfolding at
at_self d k e = let z : k - d.places ≡ 0 = omega arith in rw z (*ℤ_one d.coeff)

pub decimal-eq : (a b : Decimal) (k : ℕ) → a.places ≡ k → b.places ≡ k → at k a ≡ at k b → a ≡ b
decimal-eq a b k p q e = decimal_path (sym (at_self a k p) ∙ e ∙ at_self b k q) (p ∙ sym q)

pub plus_comm : (a b : Decimal) → plus a b ≡ plus b a
plus_comm a b =
    let k = max a.places b.places in
    decimal-eq _ _ k (omega (arith, plus-places a b)) (omega (arith, plus-places b a)) (
      at-plus a b k (omega arith) (omega arith)
      ∙ +ℤ_comm (at k a) (at k b)
      ∙ sym (at-plus b a k (omega arith) (omega arith)))

pub plus_assoc : (a b c : Decimal) → plus (plus a b) c ≡ plus a (plus b c)
plus_assoc a b c =
    let k = max (max a.places b.places) c.places in
    decimal-eq _ _ k (omega (arith, plus-places a b, plus-places (plus a b) c))
      (omega (arith, plus-places b c, plus-places a (plus b c)))
      (at-plus (plus a b) c k (omega (arith, plus-places a b)) (omega arith)
        ∙ ap (λ t. t +ℤ at k c) (at-plus a b k (omega arith) (omega arith))
        ∙ +ℤ_assoc (at k a) (at k b) (at k c)
        ∙ ap (λ t. at k a +ℤ t) (sym (at-plus b c k (omega arith) (omega arith)))
        ∙ sym (at-plus a (plus b c) k (omega arith) (omega (arith, plus-places b c))))

pub at-zero_money : (k : ℕ) → at k zero_money ≡ pos 0
unfolding at
at-zero_money k = *ℤ-zero (10 ^ (k - 0))

pub plus_zero : (a : Decimal) → plus a zero_money ≡ a
plus_zero a =
    let k = a.places in
    decimal-eq _ _ k (omega (arith, plus-places a zero_money)) refl (
      at-plus a zero_money k (omega arith) (omega arith)
      ∙ ap (λ t. at k a +ℤ t) (at-zero_money k)
      ∙ omega int_laws)

pub zero_plus : (a : Decimal) → plus zero_money a ≡ a
zero_plus a = plus_comm zero_money a ∙ plus_zero a

pub plus_swap : (a b c : Decimal) → plus (plus a b) c ≡ plus (plus a c) b
plus_swap a b c = plus_assoc a b c ∙ ap (plus a) (plus_comm b c) ∙ sym (plus_assoc a c b)

pub times_comm : (a b : Decimal) → times a b ≡ times b a
unfolding times
times_comm a b = decimal_path (*ℤ_comm a.coeff b.coeff) (omega arith)

pub times_assoc : (a b c : Decimal) → times (times a b) c ≡ times a (times b c)
unfolding times
times_assoc a b c = decimal_path (*ℤ_assoc a.coeff b.coeff c.coeff) (omega arith)

-- Over `j` and `k` places the product has `j + k`.
pub at-times :
    (a b : Decimal) (j k : ℕ)
    → a.places ≤ j
    → b.places ≤ k
    → at (j + k) (times a b) ≡ at j a *ℤ at k b
unfolding at times
at-times a b j k h g =
    let e : j + k - (a.places + b.places) ≡ j - a.places + (k - b.places) = omega arith in
    ap (λ t. a.coeff *ℤ b.coeff *ℤ pos (10 ^ t)) e
    ∙ ap (λ t. a.coeff *ℤ b.coeff *ℤ t)
        (ap pos (pow-add 10 (j - a.places) (k - b.places))
          ∙ sym (*ℤ-pos (10 ^ (j - a.places)) (10 ^ (k - b.places))))
    ∙ *ℤ_interchange a.coeff b.coeff (pos (10 ^ (j - a.places))) (pos (10 ^ (k - b.places)))

pub times-places : (a b : Decimal) → (times a b).places ≡ a.places + b.places
unfolding times
times-places a b = refl

pub times-plus : (a b c : Decimal) → times (plus a b) c ≡ plus (times a c) (times b c)
times-plus a b c =
    let m = max a.places b.places in
    let k = m + c.places in
    decimal-eq _ _ k (omega (arith, plus-places a b, times-places (plus a b) c))
      (omega (arith, times-places a c, times-places b c, plus-places (times a c) (times b c)))
      (at-times (plus a b) c m c.places (omega (arith, plus-places a b)) (omega arith)
        ∙ ap (λ t. t *ℤ at c.places c) (at-plus a b m (omega arith) (omega arith))
        ∙ *ℤ-+ℤ (at m a) (at m b) (at c.places c)
        ∙ ap₂ ◌+ℤ◌ (sym (at-times a c m c.places (omega arith) (omega arith)))
            (sym (at-times b c m c.places (omega arith) (omega arith)))
        ∙ sym (
            at-plus (times a c) (times b c) k (omega (arith, times-places a c))
              (omega (arith, times-places b c))))

pub plus_interchange : (a b c d : Decimal) → plus (plus a b) (plus c d) ≡ plus (plus a c) (plus b d)
plus_interchange a b c d =
    sym (plus_assoc (plus a b) c d)
    ∙ ap (λ t. plus t d) (plus_swap a b c)
    ∙ plus_assoc (plus a c) b d

pub Decimal-set : IsSet Decimal
Decimal-set = hlevel
