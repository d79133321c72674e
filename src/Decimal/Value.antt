-- ===== src/Decimal/Value.antt =====
-- Equality and order of decimals by value, which is what Python's comparisons see.
use accounting_tool.Prelude.{
  suc, ◌⊎◌, inl, inr, ℕ, ◌-◌, ◌^◌, ◌≤◌, max, ◌≡◌, sym, ap, ◌∙◌, ◌↔◌, true, false, arith, refl, ◌+◌,
  ◌*◌, subst,
}
use accounting_tool.Prelude.Int.{negsuc, pos, ◌≤ℤ◌, ◌*ℤ◌, ◌-ℤ◌, ◌+ℤ◌, int_laws}
use accounting_tool.Prelude.Mul.{*ℤ-pos, *ℤ_cancel_pos, pow_pos, *ℤ-le_iff}
use accounting_tool.Decimal.{
  Decimal, at, less, same, absolute, at_most, pos_part, ℤ, minus, neg_part, Bool, plus, not,
}
use accounting_tool.Decimal.Laws.{at-plus, at-minus, plus-places, minus-places, at-places}

absolute-places : (d : Decimal) → (absolute d).places ≡ d.places
unfolding absolute
absolute-places d = refl

-- `a == b`
abbrev pub Same : Decimal → Decimal → Type 0
Same a b = at (max a.places b.places) a ≡ at (max a.places b.places) b

-- `a <= b`
abbrev pub AtMost : Decimal → Decimal → Type 0
AtMost a b = at (max a.places b.places) a ≤ℤ at (max a.places b.places) b

pub same_iff : (a b : Decimal) → (same a b ≡ true) ↔ Same a b
unfolding same
same_iff a b = (λ h. ground arith, λ h. ground arith)

module _ (a b : Decimal) (k : ℕ) (ha : a.places ≤ k) (hb : b.places ≤ k) where
  -- Any common number of places decides.
  pub Same-of_at : at k a ≡ at k b → Same a b
  Same-of_at e =
      let m = max a.places b.places in
      *ℤ_cancel_pos (at m a) (at m b) (10 ^ (k - m)) (pow_pos (k - m)) (
        at-places a m k (omega arith) (omega arith)
        ∙ e
        ∙ sym (at-places b m k (omega arith) (omega arith)))

  pub at_of_Same : Same a b → at k a ≡ at k b
  at_of_Same e =
      let m = max a.places b.places in
      sym (at-places a m k (omega arith) (omega arith))
      ∙ ap (λ z. z *ℤ pos (10 ^ (k - m))) e
      ∙ at-places b m k (omega arith) (omega arith)

  pub at_of_AtMost : AtMost a b → at k a ≤ℤ at k b
  at_of_AtMost h =
      let m = max a.places b.places in
      rw
        (
          ← at-places a m k (omega arith) (omega arith),
          ← at-places b m k (omega arith) (omega arith),
        )
        ((*ℤ-le_iff (at m a) (at m b) (10 ^ (k - m)) (pow_pos (k - m))).1 h)

  pub AtMost-of_at : at k a ≤ℤ at k b → AtMost a b
  AtMost-of_at h =
      let m = max a.places b.places in
      (*ℤ-le_iff (at m a) (at m b) (10 ^ (k - m)) (pow_pos (k - m))).0 (
        rw
          (at-places a m k (omega arith) (omega arith), at-places b m k (omega arith) (omega arith))
          h)

less_lem :
    (a b : Decimal)
    → (less a b ≡ false) ↔ (at (max a.places b.places) b ≤ℤ at (max a.places b.places) a)
unfolding less
less_lem a b = (λ h. ground arith, λ h. ground arith)

-- The Boolean test and the order agree.
pub less_iff : (a b : Decimal) → (less a b ≡ false) ↔ AtMost b a
less_iff a b =
    let m = max a.places b.places in
    (
      λ h. AtMost-of_at b a m (omega arith) (omega arith) ((less_lem a b).0 h),
      λ h. (less_lem a b).1 (at_of_AtMost b a m (omega arith) (omega arith) h),
    )

pub at_most_iff : (a b : Decimal) → (at_most a b ≡ true) ↔ AtMost a b
at_most_iff a b = (λ h. (less_iff b a).0 (not-true (less b a) h), λ h. ap not ((less_iff b a).1 h))
  where
    not-true : (c : Bool) → not c ≡ true → c ≡ false
    not-true true e = cc
    not-true false e = refl

pub AtMost-refl : (a : Decimal) → AtMost a a
AtMost-refl a = omega arith

parts_disjoint : (z : ℤ) → (pos_part z ≡ 0) ⊎ (neg_part z ≡ 0)
parts_disjoint (pos n) = inr refl
parts_disjoint (negsuc n) = inl refl

negative_product :
    (n m : ℕ) → (pos_part (negsuc n *ℤ pos m) ≡ 0) × (neg_part (negsuc n *ℤ pos m) ≡ suc n * m)
unfolding ◌*ℤ◌
negative_product n m = ground arith

pub at-absolute :
    (k : ℕ) (d : Decimal) → at k (absolute d) ≡ pos (pos_part (at k d) + neg_part (at k d))
unfolding at absolute
at-absolute k d = scaled d.coeff
  where
    scaled :
        (c : ℤ)
        → let p = 10 ^ (k - d.places) in
          pos (pos_part c + neg_part c) *ℤ pos p
          ≡ pos (pos_part (c *ℤ pos p) + neg_part (c *ℤ pos p))
    scaled (pos n) =
        let p = 10 ^ (k - d.places) in rw (*ℤ-pos n p) (*ℤ-pos (n + 0) p ∙ ap pos (omega arith))
    scaled (negsuc n) =
        let p = 10 ^ (k - d.places) in
        *ℤ-pos (0 + suc n) p ∙ ap pos (omega (arith, negative_product n p))

integers_close :
    (x y t : ℤ)
    → let z = x -ℤ y in (pos (pos_part z + neg_part z) ≤ℤ t) ↔ ((x ≤ℤ y +ℤ t) × (y ≤ℤ x +ℤ t))
integers_close x y t =
    let split = parts_disjoint (x -ℤ y) in
    (λ h. (omega (int_laws, split), omega (int_laws, split)), λ h. omega (int_laws, split))

module _ (a b t : Decimal) where
  -- `abs(a - b) <= t` says that neither exceeds the other by more than `t`.
  pub absolute-minus_iff :
      AtMost (absolute (minus a b)) t ↔ (AtMost a (plus b t) × AtMost b (plus a t))
  absolute-minus_iff =
      let k = max (max a.places b.places) t.places in
      let d = minus a b in
      let hd : d.places ≤ k = omega (arith, minus-places a b) in
      let hx : (absolute d).places ≤ k = omega (arith, minus-places a b, absolute-places d) in
      let size =
        at-absolute k d
        ∙ ap (λ z. pos (pos_part z + neg_part z)) (at-minus a b k (omega arith) (omega arith)) in
      let bt : at k (plus b t) ≡ at k b +ℤ at k t = at-plus b t k (omega arith) (omega arith) in
      let ut : at k (plus a t) ≡ at k a +ℤ at k t = at-plus a t k (omega arith) (omega arith) in
      let close = integers_close (at k a) (at k b) (at k t) in
      (
        λ h.
            let g =
              close.0 (
                subst (λ z. z ≤ℤ at k t) size (at_of_AtMost (absolute d) t k hx (omega arith) h)) in
            (
              AtMost-of_at a (plus b t) k (omega arith) (omega (arith, plus-places b t))
                  (subst (λ z. at k a ≤ℤ z) (sym bt) g.0),
              AtMost-of_at b (plus a t) k (omega arith) (omega (arith, plus-places a t))
                  (subst (λ z. at k b ≤ℤ z) (sym ut) g.1),
            ),
        λ g. AtMost-of_at (absolute d) t k hx (omega arith) (
            subst (λ z. z ≤ℤ at k t) (sym size)
              (close.1 (
                subst (λ z. at k a ≤ℤ z) bt
                    (at_of_AtMost a (plus b t) k (omega arith) (omega (arith, plus-places b t))
                      g.0),
                subst (λ z. at k b ≤ℤ z) ut
                    (at_of_AtMost b (plus a t) k (omega arith) (omega (arith, plus-places a t))
                      g.1),
              ))),
      )
