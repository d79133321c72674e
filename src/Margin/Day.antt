-- ===== src/Margin/Day.antt =====
-- margin.py: the rows of a day, and what they roll up to.
use accounting_tool.Prelude.Sort.{sort}
use accounting_tool.Margin.{count_sales, Key, Tally, key_before, flagged_row, priced_row}
use accounting_tool.Margin.Resolver.{cost_per_unit, Memo, has_unknown_price}
use accounting_tool.Cost.{CostBook}
use accounting_tool.Calendar.{Date}
use accounting_tool.Decimal.{Money, zero_money, plus, minus, total}
use accounting_tool.Types.{
  ItemMargin, Segment, DailyMargin, cafe, SegmentMargin, Sale, Recipe, bar, SkuMapping,
  excluded_from_totals,
}
use accounting_tool.Recipes.{RecipeCatalog, for_item, new_catalog}
use accounting_tool.Prelude.{
  ◌>>=◌, List, Option, ◌∷◌, [], keep, not, some, map, none, false, if◌then◌else◌, true,
}

-- `{revenue, cogs, flagged}` of a segment.
pub record Bucket : Type 0 where
  pub revenue : Money
  pub cogs : Money
  pub flagged : Money

-- A dict over the two segments, both always present.
pub record Buckets : Type 0 where
  pub cafe_bucket : Bucket
  pub bar_bucket : Bucket

abbrev pub empty_bucket : Bucket
empty_bucket = record { revenue = zero_money; cogs = zero_money; flagged = zero_money }

abbrev pub empty_segment_buckets : Buckets
empty_segment_buckets = record { cafe_bucket = empty_bucket; bar_bucket = empty_bucket }

abbrev pub change_bucket : Segment → (Bucket → Bucket) → Buckets → Buckets
change_bucket cafe f b = record b { cafe_bucket = f b.cafe_bucket }
change_bucket bar f b = record b { bar_bucket = f b.bar_bucket }

abbrev pub count_row : ItemMargin → Bucket → Bucket
count_row row b = record b { revenue = plus b.revenue row.revenue; cogs = plus b.cogs row.cogs }

abbrev pub flag_row : ItemMargin → Bucket → Bucket
flag_row row b = record b { flagged = plus b.flagged row.revenue }

-- A loop over rows that changes the bucket of each row's segment.
unfoldable pub roll_up : (ItemMargin → Bucket → Bucket) → List ItemMargin → Buckets → Buckets
roll_up change [] b = b
roll_up change (row ∷ rows) b = roll_up change rows (change_bucket row.segment (change row) b)

abbrev pub segment_margin : Segment → Bucket → SegmentMargin
segment_margin segment b = record {
  segment = segment;
  revenue = b.revenue;
  variable_costs = b.cogs;
  contribution_margin = minus b.revenue b.cogs;
  flagged_revenue = b.flagged;
}

-- `_build_segment_margins`: cafe first.
abbrev pub build_segment_margins : Buckets → List SegmentMargin
build_segment_margins b = segment_margin cafe b.cafe_bucket ∷ segment_margin bar b.bar_bucket ∷ []

unfoldable pub segment_margins_from_items : List ItemMargin → List ItemMargin → List SegmentMargin
unfolding roll_up
segment_margins_from_items counted_rows flagged_rows =
    build_segment_margins
      (roll_up flag_row flagged_rows (roll_up count_row counted_rows empty_segment_buckets))

module _ (recipes : RecipeCatalog) (cost : CostBook) (day : Date) where
  -- The row of a key, and the memo after it; nothing where the division by the yield raises.
  unfoldable pub item_row : Memo → Key × Tally → Option (ItemMargin × Memo)
  item_row memo (key, t) = elim (for_item recipes key.0) [
    | none ↦ some (flagged_row day key key.0 t false, memo)
    | some recipe ↦
        let (unpriced, known) = has_unknown_price recipes cost memo recipe in
        if unpriced then some (flagged_row day key recipe.name t true, known) else do
          (cpu, after) ← cost_per_unit recipes cost known recipe
          some (priced_row day key recipe t cpu, after)
  ]

  unfoldable pub item_rows : Memo → List (Key × Tally) → Option (List ItemMargin)
  unfolding item_row
  item_rows memo [] = some []
  item_rows memo (entry ∷ entries) = do
    (row, after) ← item_row memo entry
    rows ← item_rows after entries
    some (row ∷ rows)

  unfoldable pub compute_item_margins : List Sale → Option (List ItemMargin)
  unfolding item_rows count_sales
  compute_item_margins sales =
      item_rows [] (sort (λ a b. key_before a.0 b.0) (count_sales day sales []))

-- What `compute_daily_margin` makes of the rows of its day.
unfoldable pub daily_margin_from : Date → List ItemMargin → DailyMargin
daily_margin_from day rows =
    let counted = keep (λ im. not (excluded_from_totals im)) rows in
    let flagged = keep excluded_from_totals rows in
    let total_cogs = total (map (λ im. im.cogs) counted) in
    let total_revenue = total (map (λ im. im.revenue) rows) in
    record {
      day = day;
      item_margins = rows;
      total_revenue = total_revenue;
      total_cogs = total_cogs;
      total_gross_margin = minus total_revenue total_cogs;
      flagged_revenue = total (map (λ im. im.revenue) flagged);
      segment_margins = segment_margins_from_items counted flagged;
    }

-- A `Source`: what the calculation reads of the storage.
pub record Source : Type 0 where
  pub sales : List Sale
  pub recipes : List Recipe
  pub mappings : List SkuMapping
  pub cost_book_as_of : Date → CostBook

-- The range from a day to itself has one slice, which is that day's.
unfoldable pub compute_daily_margin : Source → Date → Option DailyMargin
unfolding compute_item_margins daily_margin_from
compute_daily_margin source day = do
  rows ←
      compute_item_margins (new_catalog source.recipes source.mappings) (source.cost_book_as_of day)
        day source.sales
  some (daily_margin_from day rows)
