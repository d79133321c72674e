-- ===== src/Calendar/Tests.antt =====
-- The calendar at dates about the end of a month and a year.
use accounting_tool.Calendar.Ranges.{range_days_complete}
use accounting_tool.Calendar.Days.{IsDate}
use accounting_tool.Calendar.{
  range_days, days_in_month, Date, ordinal, next_day, is_leap, not_after, days_in_range, date_eq,
}
use accounting_tool.Prelude.{ℕ, any, ◌≤◌, ◌=?◌, ◌≡◌, refl, arith, ◌∷◌, ◌&&◌, [], length}

abbrev at_date : ℕ → ℕ → ℕ → Date
at_date y m d = record { year = y; month = m; day = d }

over_new_year :
    range_days (at_date 2023 12 31) (at_date 2024 1 2)
    ≡ at_date 2023 12 31 ∷ at_date 2024 1 1 ∷ at_date 2024 1 2 ∷ []
unfolding range_days ordinal is_leap
over_new_year = refl

leap_day : next_day (at_date 2024 2 28) ≡ at_date 2024 2 29
unfolding next_day is_leap
leap_day = refl

-- 1 January 1970 is day 719163 in Python.
epoch : ordinal (at_date 1970 1 1) ≡ 719163
unfolding ordinal is_leap
epoch = refl

exists : (m d : ℕ) → 1 ≤ m → m ≤ 12 → 1 ≤ d → d ≤ 28 → IsDate (at_date 2024 m d)
unfolding days_in_month
exists m d h k i j = (omega arith, (h, (k, (i, ground (arith, j)))))

range_days_complete_example :
    let start = at_date 2024 2 27 in
    let stop = at_date 2024 3 2 in
    (any (λ x. at_date 2024 3 1 =? x) (range_days start stop)
      ≡ (not_after start (at_date 2024 3 1) && not_after (at_date 2024 3 1) stop))
    × (length (range_days start stop) ≡ days_in_range start stop)
range_days_complete_example =
    range_days_complete (at_date 2024 2 27) (at_date 2024 3 2) (at_date 2024 3 1)
      (exists 2 27 (omega arith) (omega arith) (omega arith) (omega arith))
      (exists 3 2 (omega arith) (omega arith) (omega arith) (omega arith))
      (exists 3 1 (omega arith) (omega arith) (omega arith) (omega arith))
