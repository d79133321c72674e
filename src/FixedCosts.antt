-- ===== src/FixedCosts.antt =====
-- fixed_costs.py: recurring and one-off costs over a range of days.
pub mod Months
pub mod Laws
pub mod Covered
pub mod Whole
pub mod OneOff
mod Tests
use accounting_tool.Prelude.Int.{ℤ, sub_ℕ, pos, negsuc}
use accounting_tool.Decimal.{
  zero_money, Money, quantize, plus, total, quotient, times, whole, of_int,
}
use accounting_tool.Calendar.{
  Date, YearMonth, last_day, days_in_month, month_of, month_before, before, first_day,
  month_not_after,
}
use accounting_tool.Prelude.{
  ℕ, String, Bool, false, ◌*◌, if◌then◌else◌, ◌=?◌, List, Option, ◌+◌, [], ◌-◌, not, collect, ◌==◌,
  ◌∷◌, none, any, suc, ◌||◌, some, true, map, zero, pair_eq, nat_eq,
}

pub data CostKind : Type 0 where
  recurring oneoff : CostKind

pub record FixedCostEntry : Type 0 where
  pub entry_id : ℕ
  pub label : String
  pub category : String
  pub amount : Money
  pub kind : CostKind
  pub period : YearMonth
  pub ended_at : Option Date

pub record FixedCostLine : Type 0 where
  pub label : String
  pub category : String
  pub monthly_amount : Money
  pub amount : Money
  pub apportioned : Bool

pub record FixedCostsForPeriod : Type 0 where
  pub estimated : Bool
  pub lines : List FixedCostLine
  pub total_amount : Money

abbrev pub next_month : YearMonth → YearMonth
next_month (year, month) = if month == 12 then (year + 1, 1) else (year, month + 1)

-- The months from this one to the last, for at most as many as the fuel; `month_count` is enough.
unfoldable pub months_from : ℕ → YearMonth → YearMonth → List YearMonth
months_from zero month last = []
months_from (suc fuel) month last = elim (month_not_after month last) [
  | true ↦ month ∷ months_from fuel (next_month month) last
  | false ↦ []
]

-- A month's number in the calendar, and how many months there are to the last.
abbrev pub month_index : YearMonth → ℕ
month_index (year, month) = year * 12 + month

abbrev pub month_count : YearMonth → YearMonth → ℕ
month_count month last = month_index last + 1 - month_index month

-- Each month stands for its bounds too, which are its first and last day.
unfoldable pub months_overlapping : Date → Date → List YearMonth
unfolding months_from
months_overlapping start stop =
    months_from (month_count (month_of start) (month_of stop)) (month_of start) (month_of stop)

unfoldable pub applies_in_month : FixedCostEntry → YearMonth → Bool
applies_in_month entry month = elim entry.kind [
  | oneoff ↦ month =? entry.period
  | recurring ↦
      if month_before month entry.period
      then false
      else elim entry.ended_at [ none ↦ true | some ended ↦ month_not_after month (month_of ended) ]
]

abbrev pub later_date : Date → Date → Date
later_date a b = if before a b then b else a

abbrev pub earlier_date : Date → Date → Date
earlier_date a b = if before b a then b else a

-- `(min(end, month_end) - max(start, month_start)).days + 1`: the two lie in the one month, and a
-- range that ends before it starts gives a number below one.
unfoldable pub covered_days : Date → Date → YearMonth → ℤ
covered_days start stop month =
    sub_ℕ ((earlier_date stop (last_day month)).day + 1) (later_date start (first_day month)).day

abbrev pub is_whole : ℤ → ℕ → Bool
is_whole (pos n) days = n == days
is_whole (negsuc n) days = false

-- What a month adds to a line: the amount, and whether it is an estimate.
unfoldable pub month_charge : Money → Date → Date → YearMonth → Money × Bool
month_charge amount start stop month =
    let covered = covered_days start stop month in
    let days = days_in_month month.0 month.1 in
    if is_whole covered days
    then (amount, false)
    else (quantize 2 (quotient (times amount (of_int covered)) (whole days)), true)

pub record LineSoFar : Type 0 where
  pub amount : Money
  pub apportioned : Bool
  pub applied : Bool

unfoldable pub add_months : FixedCostEntry → Date → Date → LineSoFar → List YearMonth → LineSoFar
add_months entry start stop acc [] = acc
add_months entry start stop acc (month ∷ months) =
    add_months entry start stop
      (if not (applies_in_month entry month)
        then acc
        else let (charge, estimate) = month_charge entry.amount start stop month in
          record {
            amount = plus acc.amount charge;
            apportioned = acc.apportioned || estimate;
            applied = true;
          })
      months

abbrev pub nothing_yet : LineSoFar
nothing_yet = record { amount = zero_money; apportioned = false; applied = false }

unfoldable pub line_for_entry : Date → Date → FixedCostEntry → Option FixedCostLine
line_for_entry start stop entry =
    let acc = add_months entry start stop nothing_yet (months_overlapping start stop) in
    if not acc.applied
    then none
    else some (record {
      label = entry.label;
      category = entry.category;
      monthly_amount = entry.amount;
      amount = acc.amount;
      apportioned = acc.apportioned;
    })

unfoldable pub fixed_costs_for_period : Date → Date → List FixedCostEntry → FixedCostsForPeriod
fixed_costs_for_period start stop entries =
    let lines = collect (line_for_entry start stop) entries in
    record {
      estimated = any (λ l. l.apportioned) lines;
      lines = lines;
      total_amount = total (map (λ l. l.amount) lines);
    }
