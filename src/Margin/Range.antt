-- ===== src/Margin/Range.antt =====
-- margin.py: the margins of each day of a range, and the derived cost of a SKU with its parts.
use accounting_tool.Recipes.{new_catalog}
use accounting_tool.Prelude.{◌>>=◌, [], ◌≡◌, ◌+◌, ◌-◌, arith, ap, ◌∙◌, refl}
use accounting_tool.Types.{ItemMargin, DailyMargin}
use accounting_tool.Margin.Day.{
  compute_item_margins, Source, daily_margin_from, compute_daily_margin,
}
use accounting_tool.Calendar.{
  Date, range_days, before, days_in_range, before_irrefl, ordinal, days_from,
}
use accounting_tool.Prelude.{Option, List, some, if◌then◌else◌, ◌∷◌, none}

-- What a calculation over a range gives: the ValueError of a range that ends before it starts, the
-- error of a division by zero, or its result.
pub data RangeResult (A : Type 0) : Type 0 where
  bad_range : RangeResult A
  division_error : RangeResult A
  over_range : A → RangeResult A

abbrev pub or_division : {A : Type 0} → Option A → RangeResult A
or_division none = division_error
or_division (some a) = over_range a

pub record DayMargins : Type 0 where
  pub day : Date
  pub item_margins : List ItemMargin

unfoldable pub day_slice : Source → Date → Option DayMargins
unfolding compute_item_margins
day_slice source current = do
  rows ←
      compute_item_margins (new_catalog source.recipes source.mappings)
        (source.cost_book_as_of current) current source.sales
  some (record { day = current; item_margins = rows })

-- The loop over the days.
unfoldable pub day_slices : Source → List Date → Option (List DayMargins)
unfolding day_slice
day_slices source [] = some []
day_slices source (current ∷ days) = do
  slice ← day_slice source current
  slices ← day_slices source days
  some (slice ∷ slices)

unfoldable pub margins_over_range : Source → Date → Date → RangeResult (List DayMargins)
unfolding day_slices range_days before
margins_over_range source start stop =
    if before stop start then bad_range else or_division (day_slices source (range_days start stop))

-- What `compute_daily_margin` is in the source: the one slice of the range from a day to itself.
abbrev pub first_slice : Date → RangeResult (List DayMargins) → Option DailyMargin
first_slice day (over_range (slice ∷ slices)) = some (daily_margin_from day slice.item_margins)
first_slice day _ = none

one_day : (day : Date) → range_days day day ≡ day ∷ []
unfolding range_days days_in_range
one_day day =
    let e : ordinal day + 1 - ordinal day ≡ 1 = omega arith in
    ap (λ fuel. days_from fuel day day) e ∙ rw (days_from, before_irrefl day) refl

day_of_rows :
    (day : Date) (rows : Option (List ItemMargin))
    → (rows >>= (λ r. some (daily_margin_from day r)))
      ≡ first_slice day (
          or_division (
            (rows >>= (λ r. some (record { day = day; item_margins = r })))
            >>= (λ slice. some [] >>= (λ slices. some (slice ∷ slices)))))
day_of_rows day none = refl
day_of_rows day (some r) = refl

-- The margin of a day is the one slice of the range from the day to itself, rolled up, and fails
-- when that range does, on a recipe with a yield of zero.
pub compute_daily_margin-range :
    (source : Source) (day : Date)
    → compute_daily_margin source day ≡ first_slice day (margins_over_range source day day)
unfolding compute_daily_margin margins_over_range day_slices day_slice
compute_daily_margin-range source day =
    rw (before_irrefl day, one_day day)
      (day_of_rows day (
        compute_item_margins (new_catalog source.recipes source.mappings)
          (source.cost_book_as_of day) day source.sales))
