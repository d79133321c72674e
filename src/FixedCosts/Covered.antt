-- ===== src/FixedCosts/Covered.antt =====
-- The days of a month that a range covers, in fixed_costs.py: in a range of whole months, all of them.
use accounting_tool.FixedCosts.Laws.{charges, add_month}
use accounting_tool.Prelude.Int.{pos, sub_ℕ}
use accounting_tool.Decimal.{Money}
use accounting_tool.FixedCosts.Months.{IsMonth, Spans, month_index-injective, month_before-index}
use accounting_tool.FixedCosts.{
  month_charge, covered_days, add_months, FixedCostEntry, LineSoFar, month_index, applies_in_month,
  earlier_date, later_date,
}
use accounting_tool.Calendar.{
  YearMonth, before, last_day, first_day, month_before, month_of, Date, days_in_month,
  before_irrefl,
}
use accounting_tool.Prelude.{
  List, keep, ◌≡◌, ap, map, false, ◌∷◌, refl, All, Bool-cases, ◌≤◌, inl, arith, true, inr, ◌∙◌, [],
  ap₂, ◌==◌, ◌+◌,
}

before_of_months : (d e : Date) → month_before (month_of d) (month_of e) ≡ true → before d e ≡ true
unfolding before month_before
before_of_months d e h = ground arith

pub month_of-last_day : (m : YearMonth) → month_of (last_day m) ≡ m
unfolding last_day
month_of-last_day m = refl

earlier_in_range :
    (b m : YearMonth)
    → IsMonth b
    → IsMonth m
    → month_index m ≤ month_index b
    → earlier_date (last_day b) (last_day m) ≡ last_day m
earlier_in_range b m q v h = elim (Bool-cases (month_index m == month_index b)) [
  | inl last ↦ rw (month_index-injective m b v q (ground arith), before_irrefl (last_day b))
  | inr earlier ↦
      let order : month_before m b ≡ true = month_before-index m b v q ∙ ground arith in
      rw (
        before_of_months (last_day m) (last_day b)
          (rw (month_of-last_day m, month_of-last_day b) order))
]

later_in_range :
    (a m : YearMonth)
    → IsMonth a
    → IsMonth m
    → month_index a ≤ month_index m
    → later_date (first_day a) (first_day m) ≡ first_day m
later_in_range a m p v h = elim (Bool-cases (month_index a == month_index m)) [
  | inl first ↦ rw (month_index-injective a m p v (ground arith), before_irrefl (first_day m))
  | inr later ↦
      let order : month_before a m ≡ true = month_before-index a m p v ∙ ground arith in
      rw (before_of_months (first_day a) (first_day m) order)
]

covered_days-whole :
    (a b m : YearMonth)
    → IsMonth a
    → IsMonth b
    → Spans a b m
    → covered_days (first_day a) (last_day b) m ≡ pos (days_in_month m.0 m.1)
unfolding covered_days last_day
covered_days-whole a b m p q (v, lo, hi) =
    ap₂ (λ (x y : Date). sub_ℕ (x.day + 1) y.day) (earlier_in_range b m q v hi)
      (later_in_range a m p v lo)
    ∙ ground arith

-- A month of a range of whole months is charged in full.
pub month_charge-whole :
    (amount : Money) (a b m : YearMonth)
    → IsMonth a
    → IsMonth b
    → Spans a b m
    → month_charge amount (first_day a) (last_day b) m ≡ (amount, false)
unfolding month_charge
month_charge-whole amount a b m p q h =
    rw (month_charge, covered_days-whole a b m p q h) (ground arith)

-- The full amount for each of the months that an entry applies in.
abbrev pub in_full : FixedCostEntry → List YearMonth → List Money
in_full entry months = map (λ _. entry.amount) (keep (applies_in_month entry) months)

pub charges-whole :
    (a b : YearMonth)
    → IsMonth a
    → IsMonth b
    → (entry : FixedCostEntry) (months : List YearMonth) → All (Spans a b) months
    → charges (first_day a) (last_day b) entry months ≡ in_full entry months
charges-whole a b p q entry [] h = refl
charges-whole a b p q entry (m ∷ months) h = elim (Bool-cases (applies_in_month entry m)) [
  | inl charged ↦ rw charged (
      ap₂ ◌∷◌ (ap (λ c. c.0) (month_charge-whole entry.amount a b m p q h.0))
        (charges-whole a b p q entry months h.1))
  | inr free ↦ rw free (charges-whole a b p q entry months h.1)
]

pub add_months-apportioned :
    (a b : YearMonth)
    → IsMonth a
    → IsMonth b
    → (entry : FixedCostEntry) (acc : LineSoFar) (months : List YearMonth) → All (Spans a b) months
    → acc.apportioned ≡ false
    → (add_months entry (first_day a) (last_day b) acc months).apportioned ≡ false
unfolding add_months
add_months-apportioned a b p q entry acc [] h e = e
add_months-apportioned a b p q entry acc (m ∷ months) h e =
    elim (Bool-cases (applies_in_month entry m)) [
      | inl charged ↦
          rw (add_months, charged)
            (add_months-apportioned a b p q entry (add_month entry (first_day a) (last_day b) acc m)
              months h.1 (rw (month_charge-whole entry.amount a b m p q h.0, e)))
      | inr free ↦ rw (add_months, free) (add_months-apportioned a b p q entry acc months h.1 e)
    ]
