-- ===== src/PeriodReview.antt =====
-- period_review.py: the report over a range of days, and the performance of one item.
pub mod Laws
mod Tests
use accounting_tool.Prelude.Dict.{group_by}
use accounting_tool.Prelude.Text.{str_before}
use accounting_tool.Prelude.Sort.{sort}
use accounting_tool.Recipes.{RecipeCatalog, new_catalog, for_item, sku_for_item}
use accounting_tool.Margin.{gross_margin_pct, is_below}
use accounting_tool.FixedCosts.{FixedCostEntry, fixed_costs_for_period, FixedCostsForPeriod}
use accounting_tool.Prelude.Int.{◌+ℤ◌, ℤ, pos}
use accounting_tool.Calendar.{Date, before, days_in_range}
use accounting_tool.Decimal.{total, Money, at_most, minus, Decimal, times, whole}
use accounting_tool.Types.{
  ItemMargin, Segment, SegmentMargin, excluded_from_totals, Recipe, daily_profit_target_thb,
}
use accounting_tool.Margin.Range.{
  RangeResult, margins_over_range, DayMargins, over_range, bad_range, division_error,
}
use accounting_tool.Margin.Day.{segment_margins_from_items, Source}
use accounting_tool.Prelude.{
  ℕ, List, Option, String, Bool, some, map, none, collect, not, if◌then◌else◌, [], keep, ◌∷◌, ◌=?◌,
  ◌++◌, string_eq,
}

pub record PeriodDay : Type 0 where
  pub day : Date
  pub revenue : Money
  pub cogs : Money
  pub gross_margin : Money

pub record PeriodGoal : Type 0 where
  pub target : Money
  pub actual : Money
  pub goal_days : ℕ
  pub basis : String

abbrev pub met : PeriodGoal → Bool
met goal = at_most goal.target goal.actual

abbrev pub surplus : PeriodGoal → Money
surplus goal = minus goal.actual goal.target

pub record FlaggedPeriodItem : Type 0 where
  pub item_id : String
  pub name : String
  pub segment : Segment
  pub units_sold : ℤ
  pub revenue : Money
  pub unmapped : Bool
  pub unknown_price : Bool

pub record PeriodReview : Type 0 where
  pub start : Date
  pub stop : Date
  pub revenue : Money
  pub cogs : Money
  pub gross_margin : Money
  pub segment_margins : List SegmentMargin
  pub flagged_revenue : Money
  pub needs_attention : List FlaggedPeriodItem
  pub days : List PeriodDay
  pub fixed_costs : FixedCostsForPeriod
  pub net_profit : Money
  pub goal : PeriodGoal

abbrev pub total_units : List ℤ → ℤ
total_units [] = pos 0
total_units (n ∷ ns) = n +ℤ total_units ns

-- The row of an item from the rows of its days, of which there is at least one.
unfoldable pub flagged_item : String × List ItemMargin → Option FlaggedPeriodItem
unfolding total ◌+ℤ◌
flagged_item (item_id, []) = none
flagged_item (item_id, first ∷ days) = some (record {
  item_id = item_id;
  name = first.name;
  segment = first.segment;
  units_sold = total_units (map (λ im. im.units_sold) (first ∷ days));
  revenue = total (map (λ im. im.revenue) (first ∷ days));
  unmapped = first.unmapped;
  unknown_price = first.unknown_price;
})

-- `_aggregate_flagged`
unfoldable pub aggregate_flagged : List ItemMargin → List FlaggedPeriodItem
unfolding flagged_item
aggregate_flagged rows =
    collect flagged_item (sort (λ a b. str_before a.0 b.0) (group_by (λ im. im.item_id) rows []))

abbrev pub is_counted : ItemMargin → Bool
is_counted im = not (excluded_from_totals im)

abbrev pub revenue_of : List ItemMargin → Money
revenue_of rows = total (map (λ im. im.revenue) rows)

abbrev pub cogs_of : List ItemMargin → Money
cogs_of rows = total (map (λ im. im.cogs) rows)

-- The row of a day in the loop over the slices.
unfoldable pub period_day : DayMargins → PeriodDay
unfolding total
period_day slice =
    let day_revenue = revenue_of slice.item_margins in
    let day_cogs = cogs_of (keep is_counted slice.item_margins) in
    record {
      day = slice.day;
      revenue = day_revenue;
      cogs = day_cogs;
      gross_margin = minus day_revenue day_cogs;
    }

-- The two lists that the loop extends.
abbrev pub counted_rows : List DayMargins → List ItemMargin
counted_rows [] = []
counted_rows (slice ∷ slices) = keep is_counted slice.item_margins ++ counted_rows slices

abbrev pub flagged_rows : List DayMargins → List ItemMargin
flagged_rows [] = []
flagged_rows (slice ∷ slices) = keep excluded_from_totals slice.item_margins ++ flagged_rows slices

-- What `build_period_review` makes of the slices of its range.
unfoldable pub period_from : Date → Date → List FixedCostEntry → List DayMargins → PeriodReview
unfolding period_day aggregate_flagged segment_margins_from_items fixed_costs_for_period
    days_in_range
period_from start stop entries slices =
    let counted = counted_rows slices in
    let flagged = flagged_rows slices in
    let revenue = revenue_of (counted ++ flagged) in
    let cogs = cogs_of counted in
    let gross_margin = minus revenue cogs in
    let period_fixed = fixed_costs_for_period start stop entries in
    let net_profit = minus gross_margin period_fixed.total_amount in
    record {
      start = start;
      stop = stop;
      revenue = revenue;
      cogs = cogs;
      gross_margin = gross_margin;
      segment_margins = segment_margins_from_items counted flagged;
      flagged_revenue = revenue_of flagged;
      needs_attention = aggregate_flagged flagged;
      days = map period_day slices;
      fixed_costs = period_fixed;
      net_profit = net_profit;
      goal = record {
        target = times daily_profit_target_thb (whole (days_in_range start stop));
        actual = net_profit;
        goal_days = days_in_range start stop;
        basis = "net_profit";
      };
    }

abbrev pub over_result : {A B : Type 0} → (A → B) → RangeResult A → RangeResult B
over_result f bad_range = bad_range
over_result f division_error = division_error
over_result f (over_range a) = over_range (f a)

abbrev pub or_no_entries : Option (List FixedCostEntry) → List FixedCostEntry
or_no_entries none = []
or_no_entries (some entries) = entries

-- The test for a bad range stands here and in `margins_over_range`.
unfoldable pub build_period_review :
    Source → Date → Date → Option (List FixedCostEntry) → RangeResult PeriodReview
unfolding period_from margins_over_range before
build_period_review source start stop fixed_costs =
    if before stop start
    then bad_range
    else over_result (period_from start stop (or_no_entries fixed_costs))
        (margins_over_range source start stop)

pub record ItemDay : Type 0 where
  pub day : Date
  pub units_sold : ℤ
  pub revenue : Money
  pub cogs : Money
  pub gross_margin : Money

pub record ItemPerformance : Type 0 where
  pub item_id : String
  pub name : String
  pub sku_id : String
  pub start : Date
  pub stop : Date
  pub units_sold : ℤ
  pub revenue : Money
  pub cogs : Money
  pub gross_margin : Money
  pub gross_margin_pct : Option Decimal
  pub target_gross_margin_pct : Option Decimal
  pub below_target : Bool
  pub days : List ItemDay

-- The first row of the item on the day.
abbrev pub first_row : String → List ItemMargin → Option ItemMargin
first_row item_id [] = none
first_row item_id (im ∷ rows) = if im.item_id =? item_id then some im else first_row item_id rows

abbrev pub item_day : String → DayMargins → Option ItemDay
item_day item_id slice = elim (first_row item_id slice.item_margins) [
  | none ↦ none
  | some row ↦
      if excluded_from_totals row
      then none
      else some (record {
        day = slice.day;
        units_sold = row.units_sold;
        revenue = row.revenue;
        cogs = row.cogs;
        gross_margin = row.gross_margin;
      })
]

-- `recipes.sku_for_item(item_id) or recipe.sku_id`
abbrev pub sku_or : Option String → String → String
sku_or none sku_id = sku_id
sku_or (some mapped) sku_id = if mapped =? "" then sku_id else mapped

unfoldable pub performance_from :
    RecipeCatalog → Recipe → String → Date → Date → List DayMargins → ItemPerformance
unfolding total gross_margin_pct ◌+ℤ◌
performance_from recipes recipe item_id start stop slices =
    let rows = collect (item_day item_id) slices in
    let revenue = total (map (λ d. d.revenue) rows) in
    let cogs = total (map (λ d. d.cogs) rows) in
    let gross_margin = minus revenue cogs in
    let pct = gross_margin_pct gross_margin revenue in
    record {
      item_id = item_id;
      name = recipe.name;
      sku_id = sku_or (sku_for_item recipes item_id) recipe.sku_id;
      start = start;
      stop = stop;
      units_sold = total_units (map (λ d. d.units_sold) rows);
      revenue = revenue;
      cogs = cogs;
      gross_margin = gross_margin;
      gross_margin_pct = pct;
      target_gross_margin_pct = recipe.target_gross_margin_pct;
      below_target = is_below recipe.target_gross_margin_pct pct;
      days = rows;
    }

-- None where the item has no recipe.
unfoldable pub build_item_performance :
    Source → String → Date → Date → RangeResult (Option ItemPerformance)
unfolding performance_from margins_over_range before
build_item_performance source item_id start stop =
    let recipes = new_catalog source.recipes source.mappings in
    if before stop start then bad_range else elim (for_item recipes item_id) [
      | none ↦ over_range none
      | some recipe ↦
          over_result (λ slices. some (performance_from recipes recipe item_id start stop slices))
            (margins_over_range source start stop)
    ]
