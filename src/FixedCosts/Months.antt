-- ===== src/FixedCosts/Months.antt =====
-- The months that a range of days touches, as `_months_overlapping` of fixed_costs.py lists them.
use accounting_tool.FixedCosts.{
  months_from, next_month, month_index, month_count, months_overlapping,
}
use accounting_tool.Calendar.{month_before, YearMonth, Date, month_of}
use accounting_tool.Prelude.{
  ℕ, ◌≤◌, ◌≡◌, arith, ◌<◌, suc, ltb, [], ◌∷◌, false, true, ◌∙◌, zero, refl, In, ◌↔◌, Bool-cases,
  inl, inr, ◌==◌, sym, ◌++◌, ap, subst, pair_eq, nat_eq,
}

abbrev pub IsMonth : YearMonth → Type 0
IsMonth m = (1 ≤ m.1) × (m.1 ≤ 12)

-- Months are ordered as their numbers are.
pub month_before-index :
    (a b : YearMonth)
    → IsMonth a
    → IsMonth b
    → month_before a b ≡ ltb (month_index a) (month_index b)
unfolding month_before
month_before-index (y, m) (z, n) p q = ground arith

pub month_index-injective :
    (a b : YearMonth) → IsMonth a → IsMonth b → month_index a ≡ month_index b → a ≡ b
month_index-injective (y, m) (z, n) p q h =
    let years : y ≡ z = omega arith in let months : m ≡ n = omega arith in cc

pub next_month-IsMonth : (m : YearMonth) → IsMonth m → IsMonth (next_month m)
next_month-IsMonth (y, m) h = ground arith

pub next_month-index :
    (m : YearMonth) → IsMonth m → month_index (next_month m) ≡ suc (month_index m)
next_month-index (y, m) h = ground arith

-- A month of the range from `a` to `b`.
abbrev pub Spans : YearMonth → YearMonth → YearMonth → Type 0
Spans a b m = IsMonth m × (month_index a ≤ month_index m) × (month_index m ≤ month_index b)

pub months_from-over :
    (fuel : ℕ) (a b : YearMonth)
    → IsMonth a
    → IsMonth b
    → month_index b < month_index a
    → months_from fuel a b ≡ []
unfolding months_from
months_from-over zero a b p q h = refl
months_from-over (suc fuel) a b p q h =
    let after : month_before b a ≡ true = month_before-index b a q p ∙ ground arith in
    rw (months_from, after)

pub months_from-step :
    (fuel : ℕ) (a b : YearMonth)
    → IsMonth a
    → IsMonth b
    → month_index a ≤ month_index b
    → months_from (suc fuel) a b ≡ a ∷ months_from fuel (next_month a) b
unfolding months_from
months_from-step fuel a b p q h =
    let not_past : month_before b a ≡ false = month_before-index b a q p ∙ ground arith in
    rw (months_from, not_past)

-- The fuel that `months_overlapping` gives is enough: the months listed are exactly those of the
-- range.
pub months_from-Spans :
    (fuel : ℕ) (a b : YearMonth)
    → IsMonth a
    → IsMonth b
    → month_count a b ≤ fuel
    → (m : YearMonth) → In m (months_from fuel a b) ↔ Spans a b m
months_from-Spans zero a b p q enough m =
    rw (months_from-over zero a b p q (ground arith)) (λ i. absurd i, λ s. ground arith)
months_from-Spans (suc f) a b p q enough m =
    elim (Bool-cases (ltb (month_index b) (month_index a))) [
      | inl over ↦
          rw (months_from-over (suc f) a b p q (ground arith)) (λ i. absurd i, λ s. ground arith)
      | inr within ↦
          let next = next_month-index a p in
          let ih =
            months_from-Spans f (next_month a) b (next_month-IsMonth a p) q (ground (arith, next))
              m in
          rw (months_from-step f a b p q (ground arith)) (
            λ i. elim i [
              | inl e ↦ rw e (p, omega arith, ground arith)
              | inr i ↦ let (v, lo, hi) = ih.0 i in (v, ground (arith, next), hi)
            ],
            λ (v, lo, hi). elim (Bool-cases (month_index m == month_index a)) [
              | inl e ↦ inl (month_index-injective m a v p (ground arith))
              | inr n ↦ inr (ih.1 (v, ground (arith, next), hi))
            ],
          )
    ]

-- Beyond that, more fuel makes no difference.
pub months_from_enough :
    (f g : ℕ) (a b : YearMonth)
    → IsMonth a
    → IsMonth b
    → month_count a b ≤ f
    → month_count a b ≤ g
    → months_from f a b ≡ months_from g a b
months_from_enough zero g a b p q h k =
    months_from-over zero a b p q (ground arith) ∙ sym (months_from-over g a b p q (ground arith))
months_from_enough (suc f) zero a b p q h k =
    months_from-over (suc f) a b p q (ground arith)
    ∙ sym (months_from-over zero a b p q (ground arith))
months_from_enough (suc f) (suc g) a b p q h k =
    elim (Bool-cases (ltb (month_index b) (month_index a))) [
      | inl over ↦
          months_from-over (suc f) a b p q (ground arith)
          ∙ sym (months_from-over (suc g) a b p q (ground arith))
      | inr within ↦
          let next = next_month-index a p in
          months_from-step f a b p q (ground arith)
          ∙ ap (◌∷◌ a) (
              months_from_enough f g (next_month a) b (next_month-IsMonth a p) q
                (ground (arith, next)) (ground (arith, next)))
          ∙ sym (months_from-step g a b p q (ground arith))
    ]

-- A range that starts just after `b` has no month up to it.
split_past :
    (f g h : ℕ) (a b c : YearMonth)
    → IsMonth a
    → IsMonth b
    → IsMonth c
    → month_index a ≡ suc (month_index b)
    → month_count a c ≤ f
    → month_count (next_month b) c ≤ h
    → months_from f a c ≡ months_from g a b ++ months_from h (next_month b) c
split_past f g h a b c p q r past enough more =
    let next = next_month-index b q in
    let same_month =
      month_index-injective a (next_month b) p (next_month-IsMonth b q) (ground (arith, next)) in
    rw (months_from-over g a b p q (ground arith), same_month)
      (months_from_enough f h (next_month b) c (next_month-IsMonth b q) r
        (subst (λ m. month_count m c ≤ f) same_month enough) more)

-- A range of months falls into those up to `b` and those after it.
pub months_from-split :
    (f g h : ℕ) (a b c : YearMonth)
    → IsMonth a
    → IsMonth b
    → IsMonth c
    → month_index a ≤ suc (month_index b)
    → month_index b ≤ month_index c
    → month_count a c ≤ f
    → month_count a b ≤ g
    → month_count (next_month b) c ≤ h
    → months_from f a c ≡ months_from g a b ++ months_from h (next_month b) c
months_from-split f zero h a b c p q r below above e1 e2 e3 =
    split_past f zero h a b c p q r (omega arith) e1 e3
months_from-split zero (suc g) h a b c p q r below above e1 e2 e3 =
    split_past zero (suc g) h a b c p q r (omega arith) e1 e3
months_from-split (suc f) (suc g) h a b c p q r below above e1 e2 e3 =
    elim (Bool-cases (ltb (month_index b) (month_index a))) [
      | inl over ↦ split_past (suc f) (suc g) h a b c p q r (ground arith) e1 e3
      | inr within ↦
          let next = next_month-index a p in
          rw (months_from-step f a c p r (ground arith), months_from-step g a b p q (ground arith))
            (ap (◌∷◌ a) (
              months_from-split f g h (next_month a) b c (next_month-IsMonth a p) q r
                (ground (arith, next)) above (ground (arith, next)) (ground (arith, next)) e3))
    ]

-- The months that a range of days is split into are exactly those from its first day's to its last
-- day's, whatever the days.
pub months_overlapping-Spans :
    (start stop : Date)
    → IsMonth (month_of start)
    → IsMonth (month_of stop)
    → (m : YearMonth)
    → In m (months_overlapping start stop) ↔ Spans (month_of start) (month_of stop) m
unfolding months_overlapping
months_overlapping-Spans start stop p q m =
    months_from-Spans (month_count (month_of start) (month_of stop)) (month_of start)
      (month_of stop) p q (omega arith) m
