-- ===== src/FixedCosts/OneOff.antt =====
-- One-off costs in fixed_costs.py are charged once.
use accounting_tool.FixedCosts.Whole.{total-whole, whole_months}
use accounting_tool.FixedCosts.Covered.{in_full}
use accounting_tool.Decimal.Laws.{plus_zero}
use accounting_tool.Decimal.Sums.{total-cons, total-nil}
use accounting_tool.Decimal.{zero_money, total, plus}
use accounting_tool.FixedCosts.Months.{
  IsMonth, months_from-over, next_month-IsMonth, next_month-index, months_from-step,
  month_index-injective, months_from-Spans,
}
use accounting_tool.Calendar.{YearMonth, first_day, last_day}
use accounting_tool.FixedCosts.{
  applies_in_month, FixedCostEntry, month_count, oneoff, fixed_costs_for_period, months_from,
  month_index, next_month,
}
use accounting_tool.Prelude.{
  ℕ, List, ◌≡◌, In, keep, ◌≤◌, ◌=?◌, nat_eq, [], pair_eq, ◌∷◌, if◌then◌else◌, leb, Bool-cases, inl,
  ◌&&◌, sym, eq_sound, inr, arith, Bool, refl, suc, map, ltb, ◌∙◌, ap, ◌==◌, true, false, fun_ext,
  zero,
}

-- No month is listed twice: one that comes before the range is not in it.
keep_absent : (x : YearMonth) (l : List YearMonth) → ¬ In x l → keep (λ m. m =? x) l ≡ []
keep_absent x [] h = refl
keep_absent x (m ∷ l) h = elim (Bool-cases (m =? x)) [
  | inl e ↦ absurd (h (inl (sym (eq_sound m x e))))
  | inr n ↦ rw n (keep_absent x l (λ i. h (inr i)))
]

pub keep-months_from :
    (fuel : ℕ) (a b x : YearMonth)
    → IsMonth a
    → IsMonth b
    → IsMonth x
    → month_count a b ≤ fuel
    → keep (λ m. m =? x) (months_from fuel a b) ≡ (
        if leb (month_index a) (month_index x) && leb (month_index x) (month_index b)
        then x ∷ []
        else [])
keep-months_from zero a b x p q v enough =
    rw (months_from-over zero a b p q (ground arith)) (ground arith)
keep-months_from (suc f) a b x p q v enough =
    elim (Bool-cases (ltb (month_index b) (month_index a))) [
      | inl over ↦ rw (months_from-over (suc f) a b p q (ground arith)) (ground arith)
      | inr within ↦
          let n = next_month-IsMonth a p in
          let next = next_month-index a p in
          let rest = months_from f (next_month a) b in
          rw (months_from-step f a b p q (ground arith))
            (elim (Bool-cases (month_index a == month_index x)) [
              | inl first ↦
                  let same_month = month_index-injective a x p v (ground arith) in
                  let absent : ¬ In x rest = λ i.
                    let (_, lo, _) =
                      (months_from-Spans f (next_month a) b n q (ground (arith, next)) x).0 i in
                    absurd (ground (arith, next)) in
                  let here : (a =? x) ≡ true = (pair_eq.beq_iff a x).1 same_month in
                  let within_range : (leb (month_index a) (month_index x)
                        && leb (month_index x) (month_index b))
                      ≡ true =
                    ground arith in
                  rw (here, keep_absent x rest absent, within_range) (ap (λ m. m ∷ []) same_month)
              | inr other ↦
                  let differs : (a =? x) ≡ false = ground (arith, pair_eq.beq_iff a x) in
                  rw (differs, keep-months_from f (next_month a) b x n q v (ground (arith, next)))
                    (ground (arith, next))
            ])
    ]

applies-oneoff :
    (entry : FixedCostEntry)
    → entry.kind ≡ oneoff
    → (m : YearMonth) → applies_in_month entry m ≡ (m =? entry.period)
unfolding applies_in_month
applies-oneoff entry h m = rw h

-- Over whole months a one-off cost is charged exactly once, in full, if its month is one of them,
-- and not at all otherwise.
pub fixed_costs_for_period-oneoff :
    (a b : YearMonth) (entry : FixedCostEntry)
    → IsMonth a
    → IsMonth b
    → IsMonth entry.period
    → entry.kind ≡ oneoff
    → (fixed_costs_for_period (first_day a) (last_day b) (entry ∷ [])).total_amount ≡ (
        if leb (month_index a) (month_index entry.period)
          && leb (month_index entry.period) (month_index b)
        then entry.amount
        else zero_money)
fixed_costs_for_period-oneoff a b entry p q v h =
    total-whole a b p q (entry ∷ [])
    ∙ total-cons (total (in_full entry (whole_months a b))) []
    ∙ ap (plus (total (in_full entry (whole_months a b)))) total-nil
    ∙ plus_zero (total (in_full entry (whole_months a b)))
    ∙ ap (λ f. total (map (λ _. entry.amount) (keep f (whole_months a b))))
        (fun_ext (λ m. applies-oneoff entry h m))
    ∙ ap (λ l. total (map (λ _. entry.amount) l))
        (keep-months_from (month_count a b) a b entry.period p q v (omega arith))
    ∙ once (
        leb (month_index a) (month_index entry.period)
        && leb (month_index entry.period) (month_index b))
  where
    once :
        (t : Bool)
        → total (map (λ _. entry.amount) (if t then entry.period ∷ [] else []))
          ≡ (if t then entry.amount else zero_money)
    once true =
        total-cons entry.amount [] ∙ ap (plus entry.amount) total-nil ∙ plus_zero entry.amount
    once false = total-nil
