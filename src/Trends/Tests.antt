-- ===== src/Trends/Tests.antt =====
-- The theorem about trends.py at a trend of one bucket, and its ranges.
use accounting_tool.Trends.Laws.{weekday_aggregates-total}
use accounting_tool.PeriodReview.{PeriodDay, period_from}
use accounting_tool.Calendar.{Date, is_leap}
use accounting_tool.Decimal.{total, whole, minus}
use accounting_tool.Trends.{
  TrendBucket, month_ranges, week_ranges, week_label, weekday_aggregates, sum_by, days_of_buckets,
}
use accounting_tool.Prelude.{ℕ, map, ◌≡◌, ◌∷◌, [], refl}

abbrev day : ℕ → Date
day d = record { year = 2026; month = 5; day = d }

-- 6 May 2026 is a Wednesday.
two_weeks :
    (map (λ r. r.0) (week_ranges (day 6) 2)
      ≡ record { year = 2026; month = 4; day = 27 } ∷ day 4 ∷ [])
    × (map (λ r. r.1.0) (week_ranges (day 6) 2) ≡ day 3 ∷ day 6 ∷ [])
unfolding week_ranges is_leap
two_weeks = (refl, refl)

over_january :
    map (λ r. r.0) (month_ranges (record { year = 2026; month = 1; day = 9 }) 2)
    ≡ record { year = 2025; month = 12; day = 1 } ∷ record { year = 2026; month = 1; day = 1 } ∷ []
unfolding month_ranges
over_january = refl

abbrev sold : Date → ℕ → PeriodDay
sold d n = record {
  day = d;
  revenue = whole n;
  cogs = whole 1;
  gross_margin = minus (whole n) (whole 1);
}

abbrev bucket : TrendBucket
bucket = record {
  start = day 4;
  stop = day 6;
  label = week_label (day 4);
  review = record (period_from (day 4) (day 6) [] []) {
    days = sold (day 4) 100 ∷ sold (day 5) 200 ∷ sold (day 6) 50 ∷ [];
  };
}

weekday_aggregates-total_example :
    (total (map (λ a. a.revenue) (weekday_aggregates (bucket ∷ []) (day 5)))
      ≡ sum_by (λ d. d.revenue) (days_of_buckets (day 5) (bucket ∷ [])))
    × (total (map (λ a. a.cogs) (weekday_aggregates (bucket ∷ []) (day 5)))
        ≡ sum_by (λ d. d.cogs) (days_of_buckets (day 5) (bucket ∷ [])))
weekday_aggregates-total_example = weekday_aggregates-total (bucket ∷ []) (day 5)
