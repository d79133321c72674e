-- ===== src/CashSpend/Tests.antt =====
-- The theorems about cash_spend.py at a few rows.
use accounting_tool.CashSpend.Laws.{rounding, contributions, cash_spend_for_period-Near}
use accounting_tool.Decimal.{arithmetic, fraction, half_even, num_digits}
use accounting_tool.CashSpend.{
  cash_spend_for_period, add_entries, CashSpendEntry, add_entry, net_of_vat,
}
use accounting_tool.Decimal.Near.{Near}
use accounting_tool.Calendar.{Date, before}
use accounting_tool.Prelude.{ℕ, String, List, ◌≡◌, Bool, true, ◌∷◌, [], false, string_eq, refl}

abbrev day : ℕ → Date
day d = record { year = 2026; month = 3; day = d }

abbrev row : ℕ → String → ℕ → Bool → CashSpendEntry
row d bucket_id satang vat_inclusive = record {
  row_id = d;
  date = day d;
  supplier_id = "market";
  description = "vegetables";
  bucket_id = bucket_id;
  amount = fraction satang 2;
  vat_inclusive = vat_inclusive;
}

abbrev rows : List CashSpendEntry
rows =
    row 1 "cafe" 10000 true
    ∷ row 2 "bar" 2050 false
    ∷ row 3 "cafe" 10000 true
    ∷ row 9 "ice" 500 false
    ∷ []

program : Unit {0}
unfolding arithmetic cash_spend_for_period add_entries add_entry net_of_vat before half_even
    num_digits
program = tt

-- Twice 93.457943..., rounded after each row, and 20.50.
first_days :
    let r = cash_spend_for_period (day 1) (day 3) rows in
    (r.total_spend ≡ fraction 20742 2)
    × (r.by_bucket ≡ ("cafe", fraction 18692 2) ∷ ("bar", fraction 2050 2) ∷ [])
unfolding program
first_days = (refl, refl)

cash_spend_for_period-Near_example :
    Near
      (rounding (day 1) (day 3) rows)
      (cash_spend_for_period (day 1) (day 3) rows).total_spend
      (contributions (day 1) (day 3) rows)
cash_spend_for_period-Near_example = cash_spend_for_period-Near (day 1) (day 3) rows
