-- ===== src/PeriodReview/Tests.antt =====
-- The theorem about period_review.py at a range of two days, and an item of both segments.
use accounting_tool.Prelude.Int.{pos}
use accounting_tool.PeriodReview.Laws.{segments_total, period_from-days}
use accounting_tool.Types.{bar, Segment, cafe, ItemMargin}
use accounting_tool.Margin.Range.{DayMargins}
use accounting_tool.Decimal.{total, arithmetic, whole, plus, Money, zero_money, minus}
use accounting_tool.Calendar.{Date}
use accounting_tool.PeriodReview.{item_day, period_from, PeriodReview, ItemDay}
use accounting_tool.Prelude.{
  ℕ, List, String, Option, [], ◌≡◌, map, false, true, Bool, refl, ◌∷◌, length, some, none,
}

abbrev day : ℕ → Date
day d = record { year = 2026; month = 5; day = d }

abbrev item_margin : String → Segment → ℕ → ℕ → ℕ → Bool → ItemMargin
item_margin item_id segment d revenue cogs unmapped = record {
  item_id = item_id;
  name = item_id;
  segment = segment;
  day = day d;
  units_sold = pos 1;
  sell_price = whole revenue;
  cost_per_unit = whole cogs;
  revenue = whole revenue;
  cogs = whole cogs;
  gross_margin = minus (whole revenue) (whole cogs);
  gross_margin_pct = none;
  unmapped = unmapped;
  unknown_price = false;
  below_target = false;
}

abbrev slices : List DayMargins
slices =
    record {
      day = day 1;
      item_margins =
          item_margin "cake" cafe 1 60 0 true ∷ item_margin "latte" cafe 1 90 24 false ∷ [];
    }
    ∷ record {
      day = day 2;
      item_margins =
          item_margin "beer" bar 2 120 50 false ∷ item_margin "cake" bar 2 60 0 true ∷ [];
    }
    ∷ []

abbrev review : PeriodReview
review = period_from (day 1) (day 2) [] slices

figures :
    (review.revenue ≡ whole 330)
    × ((review.cogs ≡ whole 74)
        × ((review.flagged_revenue ≡ whole 120) × (length review.needs_attention ≡ 1)))
unfolding period_from arithmetic
figures = (refl, (refl, (refl, refl)))

period_from-days_example :
    (total (map (λ d. d.revenue) review.days) ≡ review.revenue)
    × ((total (map (λ d. d.cogs) review.days) ≡ review.cogs)
        × ((plus
                (segments_total (λ s. s.revenue) review)
                (segments_total (λ s. s.flagged_revenue) review)
              ≡ review.revenue)
            × ((segments_total (λ s. s.flagged_revenue) review ≡ review.flagged_revenue)
                × (total (map (λ f. f.revenue) review.needs_attention) ≡ review.flagged_revenue))))
period_from-days_example = period_from-days (day 1) (day 2) [] slices

-- A beer that is sold at 100 in the cafe's hours and at 120 in the bar's on one day has two rows,
-- and the performance of the item has the first of them only.
abbrev both_segments : DayMargins
both_segments = record {
  day = day 1;
  item_margins =
      item_margin "beer" bar 1 120 50 false ∷ item_margin "beer" cafe 1 100 50 false ∷ [];
}

abbrev revenue_of_day : Option ItemDay → Money
revenue_of_day none = zero_money
revenue_of_day (some d) = d.revenue

one_row_only : revenue_of_day (item_day "beer" both_segments) ≡ whole 120
one_row_only = refl
