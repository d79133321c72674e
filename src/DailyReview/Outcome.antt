-- ===== src/DailyReview/Outcome.antt =====
-- daily_review.py: which reviews cannot be built.
use accounting_tool.Anomaly.Raises.{detect_anomalies-raises}
use accounting_tool.Prelude.{
  [], ◌∷◌, Bool-cases, ◌=?◌, inl, inr, ap, eq_sound, sym, fun_ext, ◌∙◌, eq_refl, ◌≤◌, arith, ltb,
}
use accounting_tool.Decimal.{Decimal, zero_money}
use accounting_tool.Prelude.Int.{ℤ}
use accounting_tool.Anomaly.{Detected, value_error, flags, in_window}
use accounting_tool.Margin.Day.{Source, compute_daily_margin}
use accounting_tool.Margin.Range.{
  margins_over_range, or_division, bad_range, over_range, division_error, day_slices,
}
use accounting_tool.PeriodReview.{over_result}
use accounting_tool.Types.{AnomalyFlag, Void, ShiftClose, DailyMargin, Sale}
use accounting_tool.Calendar.{
  Date, before, date_eq, range_days, DateTime, before_irrefl, not_before_antisymm, last_date,
  minus_days, ordinal,
}
use accounting_tool.DailyReview.{
  GoalProgress, run_anomaly_detection, compute_goal_progress, DailyReview, Reviewed, no_range,
  with_goal, no_threshold, with_flags, config_of_day, progress_since, build_daily_review,
  window_start, with_margin, or_empty, progress_from, add_slices, review_from, GoalResult, no_date,
  progress_over, WindowStart, goal_result, before_calendar, overflow_error, starts, without_sales,
}
use accounting_tool.Prelude.{List, Option, ◌≢◌, String, some, none, ◌≡◌, refl, ◌↔◌, any, true}

-- The passes that go before `detect_anomalies` change nothing about when it raises.
detection_raises :
    (review_date : Date) (voids : List Void) (closes : List ShiftClose)
    (sales_counts : List (String × ℤ)) (threshold : Option Decimal)
    → (run_anomaly_detection review_date voids closes sales_counts threshold ≡ value_error) ↔ (
        (threshold ≡ none)
        × (any (λ c. in_window (config_of_day review_date threshold) c.closed_at) closes ≡ true))
unfolding run_anomaly_detection
detection_raises review_date [] [] [] threshold = (λ h. absurd (cc), λ h. absurd (cc))
detection_raises review_date (v ∷ voids) closes sales_counts threshold =
    detect_anomalies-raises (config_of_day review_date threshold) (v ∷ voids) closes sales_counts
detection_raises review_date [] (c ∷ closes) sales_counts threshold =
    detect_anomalies-raises (config_of_day review_date threshold) [] (c ∷ closes) sales_counts
detection_raises review_date [] [] (s ∷ sales_counts) threshold =
    detect_anomalies-raises (config_of_day review_date threshold) [] [] (s ∷ sales_counts)

over_result-or_division :
    {A B : Type 0} (f : A → B) (result : Option A) → over_result f (or_division result) ≢ bad_range
over_result-or_division f none h = absurd (cc)
over_result-or_division f (some a) h = absurd (cc)

since_in_range :
    (source : Source) (start review_date : Date)
    → progress_since source start review_date ≢ bad_range
unfolding margins_over_range progress_since
since_in_range source start review_date = elim (Bool-cases (before review_date start)) [
  | inl later ↦ rw later (λ h. absurd (cc))
  | inr fits ↦ rw fits (
      over_result-or_division (λ slices. progress_from (add_slices slices (zero_money, 0)))
        (day_slices source (range_days start review_date)))
]

-- The window starts before the calendar exactly when there are sales and the day is one of the
-- first six there are.
window_overflows :
    (sales : List Sale) (review_date : Date)
    → (window_start sales review_date ≡ before_calendar)
      ↔ ((sales ≢ []) × (ordinal review_date ≤ 6))
unfolding window_start minus_days
window_overflows [] review_date = (λ h. absurd (cc), λ h. absurd (h.0 refl))
window_overflows (s ∷ sales) review_date = elim (Bool-cases (ltb 6 (ordinal review_date))) [
  | inl late ↦ rw late ((λ h. absurd (cc)), λ h. absurd (ground (arith, h.1, late)))
  | inr early ↦ rw early ((λ h. ((λ e. absurd (cc)), ground (arith, early))), λ h. refl)
]

-- The window of the goal is never a range that ends before it starts.
progress_in_range :
    (source : Source) (review_date : Date) (start : WindowStart)
    → (progress_over source review_date start ≢ goal_result bad_range)
      × ((progress_over source review_date start ≡ overflow_error) ↔ (start ≡ before_calendar))
unfolding progress_over
progress_in_range source review_date without_sales =
    ((λ h. absurd (ground (arith, h))), ((λ h. absurd (cc)), λ h. absurd (cc)))
progress_in_range source review_date before_calendar =
    ((λ h. absurd (cc)), ((λ h. refl), λ h. refl))
progress_in_range source review_date (starts start) = (
  (λ h.
      let same : progress_since source start review_date ≡ bad_range = ground (arith, h) in
      since_in_range source start review_date same),
  ((λ h. absurd (cc)), λ h. absurd (cc)),
)

-- The goal is the last to fail, on the calendar or on a division.
with_goal_ok :
    (f : GoalProgress → DailyReview) (goal : GoalResult)
    → goal ≢ goal_result bad_range
    → (with_goal f goal ≢ no_range)
      × (with_goal f goal ≢ no_threshold)
      × ((with_goal f goal ≡ no_date) ↔ (goal ≡ overflow_error))
with_goal_ok f overflow_error h = ((λ e. absurd (cc)), (λ e. absurd (cc)), ((λ e. refl), λ e. refl))
with_goal_ok f (goal_result bad_range) h = absurd (h refl)
with_goal_ok f (goal_result division_error) h =
    ((λ e. absurd (cc)), (λ e. absurd (cc)), ((λ e. absurd (cc)), λ e. absurd (cc)))
with_goal_ok f (goal_result (over_range goal)) h =
    ((λ e. absurd (cc)), (λ e. absurd (cc)), ((λ e. absurd (cc)), λ e. absurd (cc)))

raises_with :
    (f : List AnomalyFlag → Reviewed) (found : Detected) (G : Type 0)
    → ((xs : List AnomalyFlag) → (f xs ≢ no_range) × (f xs ≢ no_threshold) × ((f xs ≡ no_date) ↔ G))
    → ((with_flags f found ≡ no_threshold) ↔ (found ≡ value_error))
      × (with_flags f found ≢ no_range)
      × ((with_flags f found ≡ no_date) ↔ ((found ≢ value_error) × G))
raises_with f value_error G ok =
    (((λ e. refl), λ e. refl), (λ e. absurd (cc)), ((λ e. absurd (cc)), λ e. absurd (e.0 refl)))
raises_with f (flags xs) G ok =
    let (fits, plain, date) = ok xs in
    (
      ((λ e. absurd (plain e)), λ e. absurd (cc)),
      fits,
      ((λ e. ((λ q. absurd (cc)), date.0 e)), λ h. date.1 h.1),
    )

raises_after :
    (f : DailyMargin → Reviewed) (daily : Option DailyMargin) (P Q : Type 0)
    → ((d : DailyMargin) → ((f d ≡ no_threshold) ↔ P) × (f d ≢ no_range) × ((f d ≡ no_date) ↔ Q))
    → ((with_margin f daily ≡ no_threshold) ↔ ((daily ≢ none) × P))
      × (with_margin f daily ≢ no_range)
      × ((with_margin f daily ≡ no_date) ↔ ((daily ≢ none) × Q))
raises_after f none P Q ok = (
  ((λ e. absurd (cc)), λ h. absurd (h.0 refl)),
  (λ e. absurd (cc)),
  ((λ e. absurd (cc)), λ h. absurd (h.0 refl)),
)
raises_after f (some d) P Q ok =
    let (same, fits, date) = ok d in
    (
      ((λ e. ((λ h. absurd (cc)), same.0 e)), λ h. same.1 h.1),
      fits,
      ((λ e. ((λ h. absurd (cc)), date.0 e)), λ h. date.1 h.1),
    )

-- The window of one day.
on_day :
    (review_date : Date) (threshold : Option Decimal) (moment : DateTime)
    → in_window (config_of_day review_date threshold) moment ≡ (moment.date =? review_date)
on_day review_date threshold moment = elim (Bool-cases (moment.date =? review_date)) [
  | inl e ↦
      let s = eq_sound moment.date review_date e in
      rw s (rw (before_irrefl review_date) (sym (eq_refl review_date)))
  | inr n ↦ elim (Bool-cases (before moment.date review_date)) [
    | inl early ↦ rw (early, n) refl
    | inr a ↦ elim (Bool-cases (before review_date moment.date)) [
      | inl late ↦ rw (a, late, n) refl
      | inr b ↦
          let s = not_before_antisymm moment.date review_date a b in
          let twice : (moment.date =? review_date) ≡ true = rw s (eq_refl review_date) in
          absurd (cc)
    ]
  ]
]

closed_on_day :
    (review_date : Date) (threshold : Option Decimal) (closes : List ShiftClose)
    → any (λ c. in_window (config_of_day review_date threshold) c.closed_at) closes
      ≡ any (λ c. c.closed_at.date =? review_date) closes
closed_on_day review_date threshold closes =
    ap (λ p. any p closes) (fun_ext (λ c. on_day review_date threshold c.closed_at))

-- No threshold is given, and a shift was closed on the day.
abbrev pub LacksThreshold : Date → Option (List ShiftClose) → Option Decimal → Type 0
LacksThreshold review_date closes threshold =
    (threshold ≡ none) × (any (λ c. c.closed_at.date =? review_date) (or_empty closes) ≡ true)

-- For a day before the last one of the calendar whose margins can be computed, a review is refused
-- for want of a threshold exactly when none is given and a shift was closed on the day, whatever
-- else is known; it fails on a date before the calendar exactly when it is not refused so, there
-- are sales, and the day is one of the first six of the year 1; and it is never refused for its
-- range of days.
pub build_daily_review-raises :
    (source : Source) (review_date : Date) (voids : Option (List Void))
    (closes : Option (List ShiftClose)) (sales_counts : Option (List (String × ℤ)))
    (threshold : Option Decimal)
    → before review_date last_date ≡ true
    → let result = build_daily_review source review_date voids closes sales_counts threshold in
      ((result ≡ no_threshold) ↔ (
        (compute_daily_margin source review_date ≢ none)
        × LacksThreshold review_date closes threshold))
      × (result ≢ no_range)
      × ((result ≡ no_date) ↔ (
          (compute_daily_margin source review_date ≢ none)
          × ((¬ LacksThreshold review_date closes threshold)
              × ((source.sales ≢ []) × (ordinal review_date ≤ 6)))))
unfolding build_daily_review compute_goal_progress
build_daily_review-raises source review_date voids closes sales_counts threshold inside =
    let found =
      run_anomaly_detection review_date (or_empty voids) (or_empty closes) (or_empty sales_counts)
        threshold in
    let goal = compute_goal_progress source review_date in
    let raises =
      detection_raises review_date (or_empty voids) (or_empty closes) (or_empty sales_counts)
        threshold in
    let same = closed_on_day review_date threshold (or_empty closes) in
    let lacks : (found ≡ value_error) ↔ LacksThreshold review_date closes threshold =
      ((λ h. let (t, c) = raises.0 h in (t, sym same ∙ c)), λ h. raises.1 (h.0, same ∙ h.1)) in
    let (fits, ends) =
      progress_in_range source review_date (window_start source.sales review_date) in
    let early = window_overflows source.sales review_date in
    raises_after
      (λ daily. with_flags (λ xs. with_goal (review_from review_date daily xs) goal) found)
      (compute_daily_margin source review_date) (LacksThreshold review_date closes threshold)
      ((¬ LacksThreshold review_date closes threshold)
        × ((source.sales ≢ []) × (ordinal review_date ≤ 6)))
      (λ daily.
        let (iff, whole_range, date) =
          raises_with (λ xs. with_goal (review_from review_date daily xs) goal) found
            (goal ≡ overflow_error)
            (λ xs. with_goal_ok (review_from review_date daily xs) goal fits) in
        (
          ((λ h. lacks.0 (iff.0 h)), λ h. iff.1 (lacks.1 h)),
          whole_range,
          (
            (λ h. let (ok, over) = date.0 h in ((λ l. ok (lacks.1 l)), early.0 (ends.0 over))),
            λ h. date.1 ((λ v. h.0 (lacks.0 v)), ends.1 (early.1 h.1)),
          ),
        ))
