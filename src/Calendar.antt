-- ===== src/Calendar.antt =====
-- Python's `date` and `datetime`, as far as the engines read them.
pub mod Days
pub mod Ranges
mod Tests
use accounting_tool.Prelude.{
  ℕ, ◌%◌, ◌≡◌, ◌↔◌, Bool, true, false, ◌&&◌, ◌||◌, not, if◌then◌else◌, ltb, ◌==◌, Eq, arith, ◌≤◌,
  ◌-◌, ◌+◌, ◌*◌, ◌/◌, suc, zero, ◌=?◌, List, [], ◌∷◌, Option, some, none,
}

pub record Date : Type 0 where
  pub year : ℕ
  pub month : ℕ
  pub day : ℕ

pub record DateTime : Type 0 where
  pub date : Date
  pub hour : ℕ
  pub minute : ℕ
  -- The rest of the minute, in microseconds.
  pub micros : ℕ

abbrev pub YearMonth : Type 0
YearMonth = ℕ × ℕ

abbrev pub date_beq : Date → Date → Bool
date_beq a b = a.year == b.year && (a.month == b.month && a.day == b.day)

pub date_beq_iff : (a b : Date) → (date_beq a b ≡ true) ↔ (a ≡ b)
date_beq_iff a b = (λ h. ground arith, λ h. ground arith)

instance abbrev pub date_eq : Eq Date
date_eq = record { beq = date_beq; beq_iff = date_beq_iff }

-- Dates are compared field by field, the year first.
unfoldable pub before : Date → Date → Bool
before a b =
    ltb a.year b.year
    || a.year == b.year && (ltb a.month b.month || a.month == b.month && ltb a.day b.day)

abbrev pub not_after : Date → Date → Bool
not_after a b = not (before b a)

-- Pairs of a year and a month are compared in the same way.
unfoldable pub month_before : YearMonth → YearMonth → Bool
month_before a b = ltb a.0 b.0 || a.0 == b.0 && ltb a.1 b.1

abbrev pub month_not_after : YearMonth → YearMonth → Bool
month_not_after a b = not (month_before b a)

abbrev pub month_of : Date → YearMonth
month_of d = (d.year, d.month)

unfoldable pub is_leap : ℕ → Bool
is_leap y = y % 4 == 0 && (not (y % 100 == 0) || y % 400 == 0)

-- `calendar.monthrange(year, month)[1]`
unfoldable pub days_in_month : ℕ → ℕ → ℕ
unfolding is_leap
days_in_month y m =
    if m == 2
    then (if is_leap y then 29 else 28)
    else if m == 4 || (m == 6 || (m == 9 || m == 11))
    then 30
    else 31

abbrev pub first_day : YearMonth → Date
first_day m = record { year = m.0; month = m.1; day = 1 }

unfoldable pub last_day : YearMonth → Date
unfolding days_in_month
last_day m = record { year = m.0; month = m.1; day = days_in_month m.0 m.1 }

-- Moments are compared by their dates, and on one day by the time.
unfoldable pub moment_before : DateTime → DateTime → Bool
unfolding before
moment_before a b =
    before a.date b.date
    || a.date =? b.date
      && (ltb a.hour b.hour
          || a.hour == b.hour
            && (ltb a.minute b.minute || a.minute == b.minute && ltb a.micros b.micros))

-- The order of dates is a total order.
pub before_irrefl : (a : Date) → before a a ≡ false
unfolding before
before_irrefl a = ground arith

pub before_trans : (a b c : Date) → before a b ≡ true → before b c ≡ true → before a c ≡ true
unfolding before
before_trans a b c h k = ground arith

pub not_after_trans : (a b c : Date) → before b a ≡ false → before c b ≡ false → before c a ≡ false
unfolding before
not_after_trans a b c h k = ground arith

pub before_asymm : (a b : Date) → before a b ≡ true → before b a ≡ false
unfolding before
before_asymm a b h = ground arith

pub not_before_antisymm : (a b : Date) → before a b ≡ false → before b a ≡ false → a ≡ b
unfolding before
not_before_antisymm a b h k = ground arith

-- `first day <= d <= last day`
unfoldable pub in_month : YearMonth → Date → Bool
unfolding before last_day
in_month m d = not_after (first_day m) d && not_after d (last_day m)

-- A date that exists lies within the bounds of its own month, and of no other.
pub in_month_iff :
    (m : YearMonth) (d : Date)
    → 1 ≤ d.day
    → d.day ≤ days_in_month d.year d.month
    → (in_month m d ≡ true) ↔ (month_of d ≡ m)
unfolding in_month
in_month_iff (y, n) d lo hi = (λ h. ground arith, λ h. ground arith)

-- The days of the year before the month `n + 1`.
abbrev pub days_before : ℕ → ℕ → ℕ
days_before y zero = 0
days_before y (suc n) = days_before y n + days_in_month y (suc n)

-- `date.toordinal()`: 1 for the first of January of the year 1.
unfoldable pub ordinal : Date → ℕ
unfolding days_in_month
ordinal d =
    let y = d.year - 1 in
    365 * y + (y / 4 - y / 100) + y / 400 + days_before d.year (d.month - 1) + d.day

-- `date.weekday()`: Monday is 0.
unfoldable pub weekday_of : Date → ℕ
unfolding ordinal
weekday_of d = (ordinal d + 6) % 7

-- `d + timedelta(days=1)`
unfoldable pub next_day : Date → Date
unfolding days_in_month
next_day d =
    if ltb d.day (days_in_month d.year d.month)
    then record d { day = suc d.day }
    else if ltb d.month 12
    then record { year = d.year; month = suc d.month; day = 1 }
    else record { year = suc d.year; month = 1; day = 1 }

-- The days from `current` to `stop` for a loop that adds a day at a time, on fuel.
abbrev pub days_from : ℕ → Date → Date → List Date
days_from zero current stop = []
days_from (suc fuel) current stop =
    if before stop current then [] else current ∷ days_from fuel (next_day current) stop

-- `(stop - start).days + 1` for a range that is not empty
unfoldable pub days_in_range : Date → Date → ℕ
unfolding ordinal
days_in_range start stop = ordinal stop + 1 - ordinal start

unfoldable pub range_days : Date → Date → List Date
unfolding days_in_range before next_day
range_days start stop = days_from (days_in_range start stop) start stop

-- `d - timedelta(days=1)`, for a date after the first of January of the year 1
unfoldable pub prev_day : Date → Date
unfolding days_in_month
prev_day d =
    if ltb 1 d.day
    then record d { day = d.day - 1 }
    else if ltb 1 d.month
    then record { year = d.year; month = d.month - 1; day = days_in_month d.year (d.month - 1) }
    else record { year = d.year - 1; month = 12; day = 31 }

-- `d - timedelta(days=n)` and `d + timedelta(days=n)`
abbrev pub days_back : ℕ → Date → Date
days_back zero d = d
days_back (suc n) d = days_back n (prev_day d)

-- `d - timedelta(days=n)` for any `n`: nothing where it raises OverflowError, before the first of
-- January of the year 1.
unfoldable pub minus_days : ℕ → Date → Option Date
unfolding ordinal prev_day
minus_days n d = if ltb n (ordinal d) then some (days_back n d) else none

-- `date.max`
abbrev pub last_date : Date
last_date = record { year = 9999; month = 12; day = 31 }

abbrev pub days_on : ℕ → Date → Date
days_on zero d = d
days_on (suc n) d = days_on n (next_day d)
