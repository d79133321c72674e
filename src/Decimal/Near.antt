-- ===== src/Decimal/Near.antt =====
-- Amounts that are near one another: the bounds add up.
use accounting_tool.Decimal.Congruence.{AtMost-of_Same, Same-sym}
use accounting_tool.Decimal.Laws.{plus_zero, at-plus, plus-places}
use accounting_tool.Prelude.Int.{◌≤ℤ◌, ◌+ℤ◌, int_laws}
use accounting_tool.Decimal.Value.{Same, AtMost, AtMost-of_at, at_of_AtMost}
use accounting_tool.Decimal.{Decimal, at, plus, zero_money}
use accounting_tool.Prelude.{ℕ, ◌≤◌, subst, max, arith, sym}

-- Neither of two amounts exceeds the other by more than `t`.
abbrev pub Near : Decimal → Decimal → Decimal → Type 0
Near t a b = AtMost a (plus b t) × AtMost b (plus a t)

-- The same over a number of places that all three have.
abbrev pub NearAt : ℕ → Decimal → Decimal → Decimal → Type 0
NearAt m t a b = (at m a ≤ℤ at m b +ℤ at m t) × (at m b ≤ℤ at m a +ℤ at m t)

module _ (t a b : Decimal) (m : ℕ) (ht : t.places ≤ m) (ha : a.places ≤ m) (hb : b.places ≤ m) where
  pub Near-of_at : NearAt m t a b → Near t a b
  Near-of_at (lo, hi) = (
    AtMost-of_at a (plus b t) m ha (omega (arith, plus-places b t))
        (subst (λ z. at m a ≤ℤ z) (sym (at-plus b t m hb ht)) lo),
    AtMost-of_at b (plus a t) m hb (omega (arith, plus-places a t))
        (subst (λ z. at m b ≤ℤ z) (sym (at-plus a t m ha ht)) hi),
  )

  pub at_of_Near : Near t a b → NearAt m t a b
  at_of_Near (lo, hi) = (
    subst (λ z. at m a ≤ℤ z) (at-plus b t m hb ht)
        (at_of_AtMost a (plus b t) m ha (omega (arith, plus-places b t)) lo),
    subst (λ z. at m b ≤ℤ z) (at-plus a t m ha ht)
        (at_of_AtMost b (plus a t) m hb (omega (arith, plus-places a t)) hi),
  )

pub Near-of_Same : (a b : Decimal) → Same a b → Near zero_money a b
Near-of_Same a b h =
    rw (plus_zero a, plus_zero b) (AtMost-of_Same a b h, AtMost-of_Same b a (Same-sym a b h))

pub Near-trans : (s t a b c : Decimal) → Near s a b → Near t b c → Near (plus s t) a c
Near-trans s t a b c h g =
    let m = max (max s.places t.places) (max (max a.places b.places) c.places) in
    let h' = at_of_Near s a b m (omega arith) (omega arith) (omega arith) h in
    let g' = at_of_Near t b c m (omega arith) (omega arith) (omega arith) g in
    let st = at-plus s t m (omega arith) (omega arith) in
    Near-of_at (plus s t) a c m (omega (arith, plus-places s t)) (omega arith) (omega arith)
      (rw st (omega int_laws, omega int_laws))

pub Near-plus :
    (s t a b c d : Decimal) → Near s a b → Near t c d → Near (plus s t) (plus a c) (plus b d)
Near-plus s t a b c d h g =
    let m = max (max s.places t.places) (max (max a.places b.places) (max c.places d.places)) in
    let h' = at_of_Near s a b m (omega arith) (omega arith) (omega arith) h in
    let g' = at_of_Near t c d m (omega arith) (omega arith) (omega arith) g in
    Near-of_at (plus s t) (plus a c) (plus b d) m (omega (arith, plus-places s t))
      (omega (arith, plus-places a c)) (omega (arith, plus-places b d))
      (rw
        (
          at-plus s t m (omega arith) (omega arith),
          at-plus a c m (omega arith) (omega arith),
          at-plus b d m (omega arith) (omega arith),
        )
        (omega int_laws, omega int_laws))
