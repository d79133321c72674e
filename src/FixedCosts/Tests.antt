-- ===== src/FixedCosts/Tests.antt =====
-- The theorems about fixed_costs.py at a rent and a one-off repair.
use accounting_tool.FixedCosts.Whole.{fixed_costs_for_period-split}
use accounting_tool.FixedCosts.Months.{Spans, months_overlapping-Spans}
use accounting_tool.Calendar.{
  YearMonth, Date, first_day, last_day, before, month_before, days_in_month,
}
use accounting_tool.FixedCosts.{
  FixedCostEntry, fixed_costs_for_period, line_for_entry, months_overlapping, oneoff, recurring,
  add_months, month_charge, covered_days, applies_in_month, months_from,
}
use accounting_tool.Decimal.{arithmetic, whole, plus, fraction, half_even}
use accounting_tool.Prelude.{ℕ, In, List, Option, ◌≡◌, some, none, ◌↔◌, ◌∷◌, [], arith, true, refl}

abbrev day : ℕ → ℕ → ℕ → Date
day y m d = record { year = y; month = m; day = d }

abbrev rent_from : YearMonth → Option Date → FixedCostEntry
rent_from period ended_at = record {
  entry_id = 1;
  label = "rent";
  category = "rent";
  amount = whole 3000;
  kind = recurring;
  period = period;
  ended_at = ended_at;
}

abbrev repair : FixedCostEntry
repair = record {
  entry_id = 2;
  label = "fridge";
  category = "repairs";
  amount = whole 500;
  kind = oneoff;
  period = (2026, 1);
  ended_at = none;
}

abbrev costs : List FixedCostEntry
costs = rent_from (2025, 12) (some (day 2026 2 3)) ∷ repair ∷ []

program : Unit {0}
unfolding arithmetic fixed_costs_for_period line_for_entry add_months month_charge covered_days
    applies_in_month months_overlapping months_from before month_before last_day days_in_month
    half_even
program = tt

-- The repair is charged in January, and the rent in the month that it ends in.
winter : (fixed_costs_for_period (day 2025 11 1) (day 2026 3 31) costs).total_amount ≡ whole 9500
unfolding program
winter = refl

-- Ten of the thirty-one days of January, to the satang.
part_of_january :
    let r =
      fixed_costs_for_period (day 2026 1 1) (day 2026 1 10) (rent_from (2025, 12) none ∷ []) in
    (r.total_amount ≡ fraction 96774 2) × (r.estimated ≡ true)
unfolding program
part_of_january = (refl, refl)

months_overlapping-Spans_example :
    In (2026, 1) (months_overlapping (day 2025 12 20) (day 2026 1 10))
    ↔ Spans (2025, 12) (2026, 1) (2026, 1)
months_overlapping-Spans_example =
    months_overlapping-Spans (day 2025 12 20) (day 2026 1 10) (omega arith, omega arith)
      (omega arith, omega arith) (2026, 1)

fixed_costs_for_period-split_example :
    (fixed_costs_for_period (first_day (2025, 11)) (last_day (2026, 3)) costs).total_amount
    ≡ plus
        (fixed_costs_for_period (first_day (2025, 11)) (last_day (2025, 12)) costs).total_amount
        (fixed_costs_for_period (first_day (2026, 1)) (last_day (2026, 3)) costs).total_amount
fixed_costs_for_period-split_example =
    fixed_costs_for_period-split (2025, 11) (2025, 12) (2026, 3) (omega arith, omega arith)
      (omega arith, omega arith) (omega arith, omega arith) (omega arith) (omega arith) costs
