-- ===== src/Decimal/Congruence.antt =====
-- Equality by value is an equivalence that sums and differences respect.
use accounting_tool.Decimal.Laws.{plus-places, minus-places, at-plus, at-minus}
use accounting_tool.Prelude.Int.{◌≤ℤ◌, int_laws, ◌+ℤ◌, ◌-ℤ◌}
use accounting_tool.Decimal.Value.{Same, AtMost, Same-of_at, at_of_Same, at_of_AtMost, AtMost-of_at}
use accounting_tool.Decimal.{Decimal, plus, ℤ, max, minus, pos_part, at, neg_part}
use accounting_tool.Prelude.{◌≡◌, subst, arith, refl, ap, sym, ◌∙◌, ap₂, ◌+◌}

pub Same-refl : (a : Decimal) → Same a a
Same-refl a = refl

pub Same-of_eq : {a b : Decimal} → a ≡ b → Same a b
Same-of_eq {a} e = subst (Same a) e (Same-refl a)

pub Same-sym : (a b : Decimal) → Same a b → Same b a
Same-sym a b h =
    let k = max a.places b.places in
    Same-of_at b a k (omega arith) (omega arith)
      (sym (at_of_Same a b k (omega arith) (omega arith) h))

pub Same-trans : (a b c : Decimal) → Same a b → Same b c → Same a c
Same-trans a b c h g =
    let k = max (max a.places b.places) c.places in
    Same-of_at a c k (omega arith) (omega arith) (
      at_of_Same a b k (omega arith) (omega arith) h
      ∙ at_of_Same b c k (omega arith) (omega arith) g)

pub Same-plus : (a b c d : Decimal) → Same a b → Same c d → Same (plus a c) (plus b d)
Same-plus a b c d h g =
    let k = max (max a.places b.places) (max c.places d.places) in
    Same-of_at (plus a c) (plus b d) k (omega (arith, plus-places a c))
      (omega (arith, plus-places b d))
      (at-plus a c k (omega arith) (omega arith)
        ∙ ap₂ ◌+ℤ◌ (at_of_Same a b k (omega arith) (omega arith) h)
            (at_of_Same c d k (omega arith) (omega arith) g)
        ∙ sym (at-plus b d k (omega arith) (omega arith)))

-- What is taken away and put back is there again.
pub Same-plus-minus : (a b : Decimal) → Same (plus a (minus b a)) b
Same-plus-minus a b =
    let k = max a.places b.places in
    Same-of_at (plus a (minus b a)) b k (omega (arith, plus-places a (minus b a), minus-places b a))
      (omega arith)
      (at-plus a (minus b a) k (omega arith) (omega (arith, minus-places b a))
        ∙ ap (λ z. at k a +ℤ z) (at-minus b a k (omega arith) (omega arith))
        ∙ omega int_laws)

pub AtMost-antisymm : (a b : Decimal) → AtMost a b → AtMost b a → Same a b
AtMost-antisymm a b h g =
    let k = max a.places b.places in
    Same-of_at a b k (omega arith) (omega arith) (
      order_eq (at k a) (at k b) (at_of_AtMost a b k (omega arith) (omega arith) h)
        (at_of_AtMost b a k (omega arith) (omega arith) g))
  where
    order_eq : (x y : ℤ) → x ≤ℤ y → y ≤ℤ x → x ≡ y
    order_eq x y p q = omega int_laws

pub AtMost-of_Same : (a b : Decimal) → Same a b → AtMost a b
AtMost-of_Same a b h = omega (arith, ap pos_part h, ap neg_part h)

-- Two differences that meet in the middle.
pub Same-telescope :
    (b p m q e : Decimal)
    → Same (plus (minus (plus b p) m) (minus (plus m q) e)) (minus (plus b (plus p q)) e)
Same-telescope b p m q e =
    let k = max (max (max b.places p.places) (max m.places q.places)) e.places in
    let h1 = plus-places b p in
    let h2 = plus-places m q in
    let h3 = plus-places p q in
    let h4 = plus-places b (plus p q) in
    let h5 = minus-places (plus b p) m in
    let h6 = minus-places (plus m q) e in
    let e1 = at-plus b p k (omega arith) (omega arith) in
    let e2 = at-minus (plus b p) m k (omega arith) (omega arith) in
    let e3 = at-plus m q k (omega arith) (omega arith) in
    let e4 = at-minus (plus m q) e k (omega arith) (omega arith) in
    let e5 = at-plus p q k (omega arith) (omega arith) in
    let e6 = at-plus b (plus p q) k (omega arith) (omega arith) in
    let e7 = at-minus (plus b (plus p q)) e k (omega arith) (omega arith) in
    let e8 = at-plus (minus (plus b p) m) (minus (plus m q) e) k (omega arith) (omega arith) in
    Same-of_at (plus (minus (plus b p) m) (minus (plus m q) e)) (minus (plus b (plus p q)) e) k
      (omega (arith, plus-places (minus (plus b p) m) (minus (plus m q) e)))
      (omega (arith, minus-places (plus b (plus p q)) e))
      (simp (e8, e2, e4, e1, e3, e7, e6, e5)
        (integers (at k b) (at k p) (at k m) (at k q) (at k e)))
  where
    integers : (b p m q e : ℤ) → b +ℤ p -ℤ m +ℤ (m +ℤ q -ℤ e) ≡ b +ℤ (p +ℤ q) -ℤ e
    integers b p m q e = omega int_laws

pub AtMost-trans : (a b c : Decimal) → AtMost a b → AtMost b c → AtMost a c
AtMost-trans a b c h k =
    let m = a.places + b.places + c.places in
    let low = at_of_AtMost a b m (omega arith) (omega arith) h in
    let high = at_of_AtMost b c m (omega arith) (omega arith) k in
    AtMost-of_at a c m (omega arith) (omega arith) (omega (arith, low, high))
