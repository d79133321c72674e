-- ===== src/DailyReview.antt =====
-- daily_review.py: the review of a day, from its margins, its anomalies and the days before it.
pub mod Ranking
pub mod Outcome
pub mod Goal
mod Tests
use accounting_tool.PeriodReview.{over_result}
use accounting_tool.Prelude.Sort.{sort}
use accounting_tool.Prelude.Int.{ltb_ℤ, ℤ}
use accounting_tool.ProfitReport.{take}
use accounting_tool.Anomaly.{
  detect_anomalies, Detected, AnomalyConfig, flags, default_peak_hours, value_error,
  default_peak_share_threshold,
}
use accounting_tool.Margin.Day.{compute_daily_margin, Source}
use accounting_tool.Decimal.{
  Money, zero_money, minus, Decimal, at_most, less, divide, whole, plus, total, quotient,
}
use accounting_tool.Calendar.{Date, days_back, before, prev_day, minus_days}
use accounting_tool.Margin.Range.{
  margins_over_range, RangeResult, over_range, DayMargins, bad_range, division_error,
}
use accounting_tool.Types.{
  ItemMargin, DailyMargin, Void, daily_profit_target_thb, AnomalyFlag, SegmentMargin, Sale,
  ShiftClose, excluded_from_totals,
}
use accounting_tool.Prelude.{
  ℕ, Bool, Option, List, some, suc, ltb, [], keep, none, ◌∷◌, not, ◌-◌, if◌then◌else◌, String, zero,
  map,
}

abbrev pub top_bottom_count : ℕ
top_bottom_count = 3

abbrev pub rolling_average_days : ℕ
rolling_average_days = 7

abbrev pub ItemRanking : Type 0
ItemRanking = List ItemMargin

pub record GoalProgress : Type 0 where
  pub rolling_average : Money
  pub target : Money
  pub days_in_window : ℕ

abbrev pub is_met : GoalProgress → Bool
is_met goal = at_most goal.target goal.rolling_average

abbrev pub goal_surplus : GoalProgress → Money
goal_surplus goal = minus goal.rolling_average goal.target

pub record DailyReview : Type 0 where
  pub day : Date
  pub revenue : Money
  pub cogs : Money
  pub gross_margin : Money
  pub segment_margins : List SegmentMargin
  pub daily : DailyMargin
  pub top_by_margin : ItemRanking
  pub bottom_by_margin : ItemRanking
  pub top_by_volume : ItemRanking
  pub bottom_by_volume : ItemRanking
  pub below_target_items : List ItemMargin
  pub unmapped_items : List ItemMargin
  pub anomaly_flags : List AnomalyFlag
  pub goal : GoalProgress

-- `sorted(rows, key=key)[:TOP_BOTTOM_COUNT]`, which puts what is `before` first.
abbrev pub first_ranked : (ItemMargin → ItemMargin → Bool) → List ItemMargin → ItemRanking
first_ranked before rows = take top_bottom_count (sort before rows)

abbrev pub more_margin : ItemMargin → ItemMargin → Bool
more_margin a b = less b.gross_margin a.gross_margin

abbrev pub less_margin : ItemMargin → ItemMargin → Bool
less_margin a b = less a.gross_margin b.gross_margin

abbrev pub more_units : ItemMargin → ItemMargin → Bool
more_units a b = ltb_ℤ b.units_sold a.units_sold

abbrev pub less_units : ItemMargin → ItemMargin → Bool
less_units a b = ltb_ℤ a.units_sold b.units_sold

unfoldable pub rank_top_by_margin : List ItemMargin → ItemRanking
rank_top_by_margin rows = first_ranked more_margin rows

unfoldable pub rank_bottom_by_margin : List ItemMargin → ItemRanking
rank_bottom_by_margin rows = first_ranked less_margin rows

unfoldable pub rank_top_by_volume : List ItemMargin → ItemRanking
rank_top_by_volume rows = first_ranked more_units rows

unfoldable pub rank_bottom_by_volume : List ItemMargin → ItemRanking
rank_bottom_by_volume rows = first_ranked less_units rows

-- The configuration of the one day, with the defaults of `AnomalyConfig`.
abbrev pub config_of_day : Date → Option Decimal → AnomalyConfig
config_of_day review_date threshold = record {
  start = review_date;
  stop = review_date;
  drawer_short_rate_threshold = threshold;
  peak_hours = default_peak_hours;
  peak_share_threshold = default_peak_share_threshold;
}

-- `_run_anomaly_detection`
unfoldable pub run_anomaly_detection :
    Date → List Void → List ShiftClose → List (String × ℤ) → Option Decimal → Detected
unfolding detect_anomalies
run_anomaly_detection review_date [] [] [] threshold = flags []
run_anomaly_detection review_date voids closes sales_counts threshold =
    detect_anomalies (config_of_day review_date threshold) voids closes sales_counts

abbrev pub first_sale : Date → List Sale → Date
first_sale earliest [] = earliest
first_sale earliest (s ∷ sales) =
    first_sale (if before s.timestamp earliest then s.timestamp else earliest) sales

abbrev pub empty_window : GoalProgress
empty_window = record {
  rolling_average = zero_money;
  target = daily_profit_target_thb;
  days_in_window = 0;
}

abbrev pub reliable_rows : List ItemMargin → List ItemMargin
reliable_rows rows = keep (λ im. not (excluded_from_totals im)) rows

-- `total` and `days_seen` of the loop over the slices.
abbrev pub add_slices : List DayMargins → Money × ℕ → Money × ℕ
add_slices [] so_far = so_far
add_slices (slice ∷ slices) (sum, days_seen) = add_slices slices (
  plus sum (total (map (λ im. im.gross_margin) (reliable_rows slice.item_margins))),
  suc days_seen,
)

-- The average over the days that were seen.
unfoldable pub progress_from : Money × ℕ → GoalProgress
unfolding quotient
progress_from (sum, zero) = empty_window
progress_from (sum, suc n) = record {
  rolling_average = quotient sum (whole (suc n));
  target = daily_profit_target_thb;
  days_in_window = suc n;
}

-- Where the window starts, if there are sales; the subtraction of the days may raise OverflowError.
pub data WindowStart : Type 0 where
  without_sales before_calendar : WindowStart
  starts : Date → WindowStart

abbrev pub later_start : Date → Option Date → WindowStart
later_start earliest none = before_calendar
later_start earliest (some week) = starts (if before earliest week then week else earliest)

abbrev pub window_start : List Sale → Date → WindowStart
unfolding minus_days before
window_start [] review_date = without_sales
window_start (s ∷ sales) review_date =
    later_start (first_sale s.timestamp sales) (minus_days (rolling_average_days - 1) review_date)

abbrev pub progress_since : Source → Date → Date → RangeResult GoalProgress
unfolding margins_over_range progress_from before
progress_since source start review_date =
    if before review_date start
    then over_range empty_window
    else over_result (λ slices. progress_from (add_slices slices (zero_money, 0)))
        (margins_over_range source start review_date)

pub data GoalResult : Type 0 where
  overflow_error : GoalResult
  goal_result : RangeResult GoalProgress → GoalResult

abbrev pub progress_over : Source → Date → WindowStart → GoalResult
unfolding progress_since
progress_over source review_date without_sales = goal_result (over_range empty_window)
progress_over source review_date before_calendar = overflow_error
progress_over source review_date (starts start) =
    goal_result (progress_since source start review_date)

-- `_compute_goal_progress`
unfoldable pub compute_goal_progress : Source → Date → GoalResult
unfolding progress_over window_start
compute_goal_progress source review_date =
    progress_over source review_date (window_start source.sales review_date)

abbrev pub or_empty {ℓ} : {A : Type ℓ} → Option (List A) → List A
or_empty none = []
or_empty (some xs) = xs

abbrev pub review_from : Date → DailyMargin → List AnomalyFlag → GoalProgress → DailyReview
review_from review_date daily found goal =
    let reliable = reliable_rows daily.item_margins in
    record {
      day = review_date;
      revenue = daily.total_revenue;
      cogs = daily.total_cogs;
      gross_margin = daily.total_gross_margin;
      segment_margins = daily.segment_margins;
      daily = daily;
      top_by_margin = rank_top_by_margin reliable;
      bottom_by_margin = rank_bottom_by_margin reliable;
      top_by_volume = rank_top_by_volume reliable;
      bottom_by_volume = rank_bottom_by_volume reliable;
      below_target_items = keep (λ im. im.below_target) reliable;
      unmapped_items = keep (λ im. im.unmapped) daily.item_margins;
      anomaly_flags = found;
      goal = goal;
    }

-- A review, or the error that comes first: of a division by zero, the ValueError of the drawers
-- without a threshold or of a bad range, or the OverflowError of a window that starts before the
-- calendar does.
pub data Reviewed : Type 0 where
  no_division no_threshold no_range no_date : Reviewed
  review : DailyReview → Reviewed

abbrev pub with_goal : (GoalProgress → DailyReview) → GoalResult → Reviewed
with_goal f overflow_error = no_date
with_goal f (goal_result bad_range) = no_range
with_goal f (goal_result division_error) = no_division
with_goal f (goal_result (over_range goal)) = review (f goal)

abbrev pub with_flags : (List AnomalyFlag → Reviewed) → Detected → Reviewed
with_flags f value_error = no_threshold
with_flags f (flags found) = f found

abbrev pub with_margin : (DailyMargin → Reviewed) → Option DailyMargin → Reviewed
with_margin f none = no_division
with_margin f (some daily) = f daily

unfoldable pub build_daily_review :
    Source
    → Date
    → Option (List Void)
    → Option (List ShiftClose)
    → Option (List (String × ℤ))
    → Option Decimal
    → Reviewed
unfolding compute_daily_margin run_anomaly_detection compute_goal_progress rank_top_by_margin
    rank_bottom_by_margin rank_top_by_volume rank_bottom_by_volume
build_daily_review source review_date voids closes sales_counts threshold =
    with_margin
      (λ daily.
        with_flags
          (λ found.
            with_goal (review_from review_date daily found)
              (compute_goal_progress source review_date))
          (run_anomaly_detection review_date (or_empty voids) (or_empty closes)
            (or_empty sales_counts) threshold))
      (compute_daily_margin source review_date)
