-- ===== src/Anomaly.antt =====
-- anomaly.py: the four rules over voids and drawers.
pub mod Runs
pub mod Raises
mod Tests
use accounting_tool.Prelude.Text.{str_before}
use accounting_tool.Prelude.Sort.{sort}
use accounting_tool.Prelude.Dict.{get_or, insert, group_by, keys}
use accounting_tool.Prelude.Int.{ℤ, pos, ltb_ℤ}
use accounting_tool.Calendar.{moment_before, Date, DateTime, not_after}
use accounting_tool.Decimal.{quotient, Decimal, less, whole, plus, fraction, zero_money, of_int}
use accounting_tool.Types.{
  ShiftClose, Void, AnomalyKind, FlagDetail, AnomalyFlag, void_rate_above_venue_median,
  drawer_short_three_shifts_running, rate_detail, run_detail, drawer_short_rate_above_threshold,
  void_clustering_at_peak, peak_detail, short_detail,
}
use accounting_tool.Prelude.{
  ℕ, String, Bool, Option, List, length, leb, ◌∷◌, some, if◌then◌else◌, none, map, keep, collect,
  ◌++◌, [], ◌==◌, any, suc, ◌&&◌, max, ◌%◌, ◌=?◌, zero, ltb, ◌/◌, string_eq, ◌-◌,
}

-- The hours of the evening rush, the end outside.
abbrev pub default_peak_hours : Option (ℕ × ℕ)
default_peak_hours = some (18, 21)

abbrev pub default_peak_share_threshold : Decimal
default_peak_share_threshold = fraction 5 1

abbrev pub run_of_shifts_threshold : ℕ
run_of_shifts_threshold = 3

-- `peak_hours` is none where the source has the empty tuple.
pub record AnomalyConfig : Type 0 where
  pub start : Date
  pub stop : Date
  pub drawer_short_rate_threshold : Option Decimal
  pub peak_hours : Option (ℕ × ℕ)
  pub peak_share_threshold : Decimal

abbrev pub in_window : AnomalyConfig → DateTime → Bool
in_window config moment = not_after config.start moment.date && not_after moment.date config.stop

abbrev flag : AnomalyConfig → AnomalyKind → String → Decimal → Decimal → FlagDetail → AnomalyFlag
flag config kind cashier_id observed reference detail = record {
  kind = kind;
  cashier_id = cashier_id;
  period_start = config.start;
  period_end = config.stop;
  observed = observed;
  reference = reference;
  detail = detail;
}

-- A set as the list of its elements.
abbrev pub distinct : List String → List String
distinct [] = []
distinct (x ∷ xs) = let rest = distinct xs in if any (λ y. x =? y) rest then rest else x ∷ rest

-- `_cashiers_in_voids_or_sales`
unfoldable pub cashiers_in_voids_or_sales : List Void → List (String × ℤ) → List String
cashiers_in_voids_or_sales voids sales_counts =
    sort str_before (distinct (keys sales_counts ++ map (λ v. v.cashier_id) voids))

-- `statistics.median` of data that is not empty
abbrev nth_of : ℕ → List Decimal → Decimal
nth_of n [] = zero_money
nth_of zero (x ∷ xs) = x
nth_of (suc n) (x ∷ xs) = nth_of n xs

unfoldable pub median : List Decimal → Decimal
unfolding quotient plus less
median rates =
    let ordered = sort less rates in
    let n = length rates in
    if n % 2 == 1
    then nth_of (n / 2) ordered
    else quotient (plus (nth_of (n / 2 - 1) ordered) (nth_of (n / 2) ordered)) (whole 2)

abbrev pub count : {A : Type 0} → (A → Bool) → List A → ℕ
count p xs = length (keep p xs)

-- A share of two counts.
abbrev pub share_of : ℕ → ℕ → Decimal
share_of part total = quotient (whole part) (whole total)

unfoldable pub void_rate : List Void → List (String × ℤ) → String → Decimal
unfolding quotient
void_rate voids sales_counts cashier_id =
    let sales = get_or cashier_id (pos 0) sales_counts in
    if ltb_ℤ (pos 0) sales
    then quotient (whole (count (λ v. v.cashier_id =? cashier_id) voids)) (of_int sales)
    else zero_money

-- The loop over the rates. The cashiers are distinct, so that the dict is the list.
abbrev pub rate_flag : AnomalyConfig → Decimal → String × Decimal → Option AnomalyFlag
rate_flag config venue_median (cashier_id, rate) =
    if less venue_median rate
    then some (
        flag config void_rate_above_venue_median cashier_id rate venue_median
          (rate_detail rate venue_median))
    else none

-- `_void_rate_flags`
unfoldable pub void_rate_flags : AnomalyConfig → List Void → List (String × ℤ) → List AnomalyFlag
unfolding cashiers_in_voids_or_sales void_rate median
void_rate_flags config voids sales_counts =
    let cashiers = cashiers_in_voids_or_sales voids sales_counts in
    let rates =
      map (λ cashier_id. (cashier_id, void_rate voids sales_counts cashier_id)) cashiers in
    collect (rate_flag config (median (map (λ r. r.1) rates))) rates

abbrev pub in_peak : ℕ → ℕ → Void → Bool
in_peak lo hi v = leb lo v.created_at.hour && ltb v.created_at.hour hi

-- The body of the loop over the cashiers, none of whom has an empty list.
abbrev pub peak_flag : AnomalyConfig → ℕ → ℕ → String × List Void → Option AnomalyFlag
peak_flag config lo hi (cashier_id, voids) =
    let n = length voids in
    let k = count (in_peak lo hi) voids in
    let share = share_of k n in
    if n == 0
    then none
    else if less config.peak_share_threshold share
    then some (
        flag config void_clustering_at_peak cashier_id share config.peak_share_threshold
          (peak_detail k n share lo hi))
    else none

-- `_void_peak_clustering_flags`
unfoldable pub void_peak_clustering_flags : AnomalyConfig → List Void → List AnomalyFlag
unfolding quotient less
void_peak_clustering_flags config voids = elim config.peak_hours [
  | none ↦ []
  | some hours ↦ collect (peak_flag config hours.0 hours.1) (group_by (λ v. v.cashier_id) voids [])
]

-- A close is short when its variance is below zero.
abbrev pub is_short : ShiftClose → Bool
is_short close = less close.variance zero_money

abbrev pub short_flag : AnomalyConfig → Decimal → String × List ShiftClose → Option AnomalyFlag
short_flag config threshold (cashier_id, closes) =
    let n = length closes in
    let k = count is_short closes in
    let rate = share_of k n in
    if n == 0
    then none
    else if less threshold rate
    then some (
        flag config drawer_short_rate_above_threshold cashier_id rate threshold
          (short_detail k n rate threshold))
    else none

-- A result, or the ValueError.
pub data Detected : Type 0 where
  flags : List AnomalyFlag → Detected
  value_error : Detected

-- `_drawer_short_rate_flags`
unfoldable pub drawer_short_rate_flags : AnomalyConfig → List ShiftClose → Detected
unfolding quotient less
drawer_short_rate_flags config closes = elim config.drawer_short_rate_threshold [
  | none ↦ elim closes [ [] ↦ flags [] | _ ∷ _ ↦ value_error ]
  | some threshold ↦
      flags (collect (short_flag config threshold) (group_by (λ c. c.cashier_id) closes []))
]

-- `streaks` and `longest_per_cashier`
abbrev pub Streaks : Type 0
Streaks = List (String × ℕ) × List (String × ℕ)

abbrev pub next_streak : ShiftClose → ℕ → ℕ
next_streak close streak = if is_short close then suc streak else 0

abbrev pub walk_close : ShiftClose → Streaks → Streaks
walk_close close (streaks, longest) =
    let streak = next_streak close (get_or close.cashier_id 0 streaks) in
    (
      insert close.cashier_id streak streaks,
      insert close.cashier_id (max (get_or close.cashier_id 0 longest) streak) longest,
    )

unfoldable pub walk_closes : List ShiftClose → Streaks → Streaks
unfolding less
walk_closes [] state = state
walk_closes (close ∷ closes) state = walk_closes closes (walk_close close state)

abbrev pub run_flag : AnomalyConfig → String × ℕ → Option AnomalyFlag
run_flag config (cashier_id, longest) =
    if leb run_of_shifts_threshold longest
    then some (
        flag config drawer_short_three_shifts_running cashier_id (whole longest)
          (whole run_of_shifts_threshold) (run_detail longest))
    else none

abbrev pub closed_before : ShiftClose → ShiftClose → Bool
closed_before a b = moment_before a.closed_at b.closed_at

-- `_drawer_run_flags`
unfoldable pub drawer_run_flags : AnomalyConfig → List ShiftClose → List AnomalyFlag
unfolding walk_closes moment_before
drawer_run_flags config closes =
    collect (run_flag config) (walk_closes (sort closed_before closes) ([], [])).1

abbrev pub with_more : List AnomalyFlag → Detected → List AnomalyFlag → Detected
with_more first (flags middle) last = flags (first ++ middle ++ last)
with_more first value_error last = value_error

unfoldable pub detect_anomalies :
    AnomalyConfig → List Void → List ShiftClose → List (String × ℤ) → Detected
unfolding void_rate_flags void_peak_clustering_flags drawer_short_rate_flags drawer_run_flags
detect_anomalies config voids closes sales_counts =
    let in_window_voids = keep (λ v. in_window config v.created_at) voids in
    let in_window_closes = keep (λ c. in_window config c.closed_at) closes in
    with_more
      (void_rate_flags config in_window_voids sales_counts
        ++ void_peak_clustering_flags config in_window_voids)
      (drawer_short_rate_flags config in_window_closes) (drawer_run_flags config in_window_closes)
