-- ===== src/Trends.antt =====
-- trends.py: the period review once for each week or month, and its days by weekday.
pub mod Laws
mod Tests
use accounting_tool.Decimal.{Money, total}
use accounting_tool.PeriodReview.{PeriodDay, build_period_review, PeriodReview}
use accounting_tool.Margin.Day.{Source}
use accounting_tool.Margin.Range.{RangeResult, over_range}
use accounting_tool.Calendar.{
  weekday_of, YearMonth, last_day, before, Date, prev_day, first_day, next_day, days_back, month_of,
  not_after, days_on,
}
use accounting_tool.Prelude.{
  ℕ, String, List, if◌then◌else◌, map, ◌∷◌, [], Option, suc, ◌=?◌, some, ◌-◌, keep, zero, ◌==◌,
  none, ◌*◌, string_eq, ◌++◌, length,
}

abbrev pub trend_buckets : ℕ
trend_buckets = 12

abbrev pub weekday_labels : List String
weekday_labels = "Mon" ∷ "Tue" ∷ "Wed" ∷ "Thu" ∷ "Fri" ∷ "Sat" ∷ "Sun" ∷ []

-- A label is the day or the month that it prints.
pub data TrendLabel : Type 0 where
  week_label : Date → TrendLabel
  month_label : YearMonth → TrendLabel

pub record TrendBucket : Type 0 where
  pub start : Date
  pub stop : Date
  pub label : TrendLabel
  pub review : PeriodReview

pub record WeekdayAggregate : Type 0 where
  pub weekday : ℕ
  pub label : String
  pub day_count : ℕ
  pub revenue : Money
  pub cogs : Money
  pub gross_margin : Money

pub record TrendReport : Type 0 where
  pub span : String
  pub anchor : Date
  pub trend_list : List TrendBucket
  pub weekdays : List WeekdayAggregate

-- A start, an end and a label.
abbrev pub TrendRange : Type 0
TrendRange = Date × (Date × TrendLabel)

abbrev earlier_of : Date → Date → Date
earlier_of a b = if before b a then b else a

-- The loop of `_week_ranges`, for the weeks that lie `n - 1` to 0 weeks back.
abbrev pub weeks_back : Date → Date → ℕ → List TrendRange
weeks_back anchor_monday anchor zero = []
weeks_back anchor_monday anchor (suc i) =
    let monday = days_back (7 * i) anchor_monday in
    (monday, (earlier_of (days_on 6 monday) anchor, week_label monday))
    ∷ weeks_back anchor_monday anchor i

unfoldable pub week_ranges : Date → ℕ → List TrendRange
unfolding weekday_of prev_day next_day before
week_ranges anchor buckets = weeks_back (days_back (weekday_of anchor) anchor) anchor buckets

abbrev pub prev_month : YearMonth → YearMonth
prev_month (year, month) = if month - 1 == 0 then (year - 1, 12) else (year, month - 1)

-- The loop that goes back from a month, its list reversed.
abbrev pub months_back : ℕ → YearMonth → List YearMonth → List YearMonth
months_back zero month later = later
months_back (suc n) month later = months_back n (prev_month month) (month ∷ later)

abbrev pub month_range : YearMonth → TrendRange
month_range month = (first_day month, (last_day month, month_label month))

unfoldable pub month_ranges : Date → ℕ → List TrendRange
unfolding last_day
month_ranges anchor buckets = map month_range (months_back buckets (month_of anchor) [])

abbrev pub sum_by : (PeriodDay → Money) → List PeriodDay → Money
sum_by amount days = total (map amount days)

-- The row of a weekday among the days.
unfoldable pub weekday_aggregate : List PeriodDay → ℕ × String → WeekdayAggregate
unfolding weekday_of total
weekday_aggregate days (weekday, label) =
    let matching = keep (λ d. weekday_of d.day == weekday) days in
    record {
      weekday = weekday;
      label = label;
      day_count = length matching;
      revenue = sum_by (λ d. d.revenue) matching;
      cogs = sum_by (λ d. d.cogs) matching;
      gross_margin = sum_by (λ d. d.gross_margin) matching;
    }

-- `enumerate`
abbrev pub enumerate_from : ℕ → List String → List (ℕ × String)
enumerate_from n [] = []
enumerate_from n (x ∷ xs) = (n, x) ∷ enumerate_from (suc n) xs

abbrev pub days_of_buckets : Date → List TrendBucket → List PeriodDay
days_of_buckets anchor [] = []
days_of_buckets anchor (bucket ∷ buckets) =
    keep (λ d. not_after d.day anchor) bucket.review.days ++ days_of_buckets anchor buckets

unfoldable pub weekday_aggregates : List TrendBucket → Date → List WeekdayAggregate
unfolding weekday_aggregate before
weekday_aggregates buckets anchor =
    map (weekday_aggregate (days_of_buckets anchor buckets)) (enumerate_from 0 weekday_labels)

-- The ValueError of an unknown span, the error of a division by zero, or the report.
pub data TrendResult : Type 0 where
  unknown_span : TrendResult
  bucket_error : TrendResult
  trends : TrendReport → TrendResult

abbrev pub add_bucket :
    TrendRange → RangeResult PeriodReview → Option (List TrendBucket) → Option (List TrendBucket)
add_bucket (start, (stop, label)) (over_range review) (some buckets) =
    some (record { start = start; stop = stop; label = label; review = review } ∷ buckets)
add_bucket range result buckets = none

unfoldable pub build_buckets : Source → List TrendRange → Option (List TrendBucket)
unfolding build_period_review
build_buckets source [] = some []
build_buckets source (range ∷ ranges) =
    add_bucket range (build_period_review source range.0 range.1.0 none)
      (build_buckets source ranges)

abbrev pub report_of : String → Date → Option (List TrendBucket) → TrendResult
report_of span anchor none = bucket_error
report_of span anchor (some built) = trends (record {
  span = span;
  anchor = anchor;
  trend_list = built;
  weekdays = weekday_aggregates built anchor;
})

unfoldable pub build_trends : Source → Date → String → ℕ → TrendResult
unfolding build_buckets weekday_aggregates week_ranges month_ranges
build_trends source anchor span buckets =
    if span =? "weeks"
    then report_of span anchor (build_buckets source (week_ranges anchor buckets))
    else if span =? "months"
    then report_of span anchor (build_buckets source (month_ranges anchor buckets))
    else unknown_span
