-- ===== src/ProfitReport/Tests.antt =====
-- The theorems about profit_report.py at a small month.
use accounting_tool.Decimal.{whole, arithmetic}
use accounting_tool.Prelude.Int.{pos}
use accounting_tool.Calendar.Days.{IsDate}
use accounting_tool.ProfitReport.{
  rank_bestsellers, is_month_in_progress, with_keys, ItemSalesTotal, metric_value,
}
use accounting_tool.Calendar.{days_in_month, Date, is_leap, before}
use accounting_tool.Prelude.{
  ℕ, String, Option, ◌≡◌, List, true, [], map, some, ◌∷◌, arith, false, none, refl,
}

abbrev day : ℕ → Date
day d = record { year = 2026; month = 2; day = d }

february : map (λ d. is_month_in_progress (day 1) (day 28) (day d)) (1 ∷ 28 ∷ []) ≡ true ∷ true ∷ []
unfolding is_month_in_progress before days_in_month is_leap
february = refl

exists : IsDate (day 14)
unfolding days_in_month is_leap
exists = (omega arith, (omega arith, (omega arith, (omega arith, omega arith))))

abbrev sold : String → ℕ → ℕ → ItemSalesTotal
sold item_id units revenue = record {
  item_id = item_id;
  name = item_id;
  units_sold = pos units;
  revenue = whole revenue;
  cm_unknown = false;
}

abbrev ids : Option (List ItemSalesTotal) → List String
ids none = []
ids (some items) = map (λ t. t.item_id) items

-- The giveaway ranks by units, the item that never sold does not, and a tie goes by the id.
ranking :
    ids (
      rank_bestsellers
        (sold "b" 2 100 ∷ sold "gift" 5 0 ∷ sold "a" 2 100 ∷ sold "none" 0 0 ∷ [])
        "units"
        3)
    ≡ "gift" ∷ "a" ∷ "b" ∷ []
unfolding rank_bestsellers with_keys metric_value arithmetic
ranking = refl
