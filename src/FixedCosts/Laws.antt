-- ===== src/FixedCosts/Laws.antt =====
-- What the fixed costs of fixed_costs.py charge over a range.
use accounting_tool.Decimal.Laws.{plus_zero, plus_assoc, zero_plus}
use accounting_tool.Decimal.Sums.{total-nil, total-cons}
use accounting_tool.Decimal.{Money, plus, total, zero_money}
use accounting_tool.Calendar.{Date, YearMonth}
use accounting_tool.FixedCosts.{
  add_months, FixedCostEntry, line_for_entry, LineSoFar, month_charge, applies_in_month,
  months_overlapping, FixedCostLine, nothing_yet, fixed_costs_for_period,
}
use accounting_tool.Prelude.{
  Bool, List, any, ◌≡◌, ◌||◌, map, false, keep, true, arith, [], sym, ◌∷◌, ap, refl, Bool-cases,
  ◌∙◌, inl, inr, Option, some, none, collect, ap₂,
}

-- What an entry is charged in the months that it applies in.
abbrev pub charges : Date → Date → FixedCostEntry → List YearMonth → List Money
charges start stop entry months =
    map (λ m. (month_charge entry.amount start stop m).0) (keep (applies_in_month entry) months)

abbrev pub add_month : FixedCostEntry → Date → Date → LineSoFar → YearMonth → LineSoFar
add_month entry start stop acc month =
    let (charge, estimate) = month_charge entry.amount start stop month in
    record {
      amount = plus acc.amount charge;
      apportioned = acc.apportioned || estimate;
      applied = true;
    }

add_months-amount :
    (entry : FixedCostEntry) (start stop : Date) (acc : LineSoFar) (months : List YearMonth)
    → (add_months entry start stop acc months).amount
      ≡ plus acc.amount (total (charges start stop entry months))
unfolding add_months
add_months-amount entry start stop acc [] =
    sym (ap (plus acc.amount) total-nil ∙ plus_zero acc.amount)
add_months-amount entry start stop acc (m ∷ months) = elim (Bool-cases (applies_in_month entry m)) [
  | inl charged ↦
      let charge = (month_charge entry.amount start stop m).0 in
      rw (add_months, charged, total-cons charge (charges start stop entry months))
        (add_months-amount entry start stop (add_month entry start stop acc m) months
          ∙ plus_assoc acc.amount charge (total (charges start stop entry months)))
  | inr free ↦ rw (add_months, free) (add_months-amount entry start stop acc months)
]

-- A line comes about exactly when some month applies.
add_months-applied :
    (entry : FixedCostEntry) (start stop : Date) (acc : LineSoFar) (months : List YearMonth)
    → (add_months entry start stop acc months).applied
      ≡ (acc.applied || any (applies_in_month entry) months)
unfolding add_months
add_months-applied entry start stop acc [] = ground arith
add_months-applied entry start stop acc (m ∷ months) =
    elim (Bool-cases (applies_in_month entry m)) [
      | inl charged ↦
          rw (add_months, charged)
            (add_months-applied entry start stop (add_month entry start stop acc m) months
              ∙ ground arith)
      | inr free ↦ rw (add_months, free) (add_months-applied entry start stop acc months)
    ]

none_kept :
    (p : YearMonth → Bool) (months : List YearMonth) → any p months ≡ false → keep p months ≡ []
none_kept p [] h = refl
none_kept p (m ∷ months) h = ground (arith, none_kept p months)

abbrev amount_of : Option FixedCostLine → Money
amount_of none = zero_money
amount_of (some line) = line.amount

total-collected :
    (o : Option FixedCostLine) (lines : List FixedCostLine)
    → total (map (λ l. l.amount) (elim o [ none ↦ lines | some line ↦ line ∷ lines ]))
      ≡ plus (amount_of o) (total (map (λ l. l.amount) lines))
total-collected none lines = sym (zero_plus (total (map (λ l. l.amount) lines)))
total-collected (some line) lines = total-cons line.amount (map (λ l. l.amount) lines)

amount_of-line_for_entry :
    (start stop : Date) (entry : FixedCostEntry)
    → amount_of (line_for_entry start stop entry)
      ≡ total (charges start stop entry (months_overlapping start stop))
unfolding line_for_entry
amount_of-line_for_entry start stop entry =
    let months = months_overlapping start stop in
    let applied = add_months-applied entry start stop nothing_yet months in
    elim (Bool-cases (any (applies_in_month entry) months)) [
      | inl charged ↦
          rw (applied, charged)
            (add_months-amount entry start stop nothing_yet months
              ∙ zero_plus (total (charges start stop entry months)))
      | inr free ↦
          rw (applied, free, none_kept (applies_in_month entry) months free) (sym total-nil)
    ]

-- The total is that of every charge of every entry: what an entry is charged in each month of the
-- range that it applies in.
pub fixed_costs_for_period-total :
    (start stop : Date) (entries : List FixedCostEntry)
    → (fixed_costs_for_period start stop entries).total_amount
      ≡ total (map (λ e. total (charges start stop e (months_overlapping start stop))) entries)
unfolding fixed_costs_for_period
fixed_costs_for_period-total start stop entries = go entries
  where
    go :
        (entries : List FixedCostEntry)
        → total (map (λ l. l.amount) (collect (line_for_entry start stop) entries))
          ≡ total (map (λ e. total (charges start stop e (months_overlapping start stop))) entries)
    go [] = refl
    go (e ∷ entries) =
        let own = total (charges start stop e (months_overlapping start stop)) in
        let rest =
          map (λ e. total (charges start stop e (months_overlapping start stop))) entries in
        total-collected (line_for_entry start stop e) (collect (line_for_entry start stop) entries)
        ∙ ap₂ plus (amount_of-line_for_entry start stop e) (go entries)
        ∙ sym (total-cons own rest)
