-- ===== src/Margin/Tests.antt =====
-- Runs of margin.py, and its theorems at them.
use accounting_tool.Prelude.Dict.{keys}
use accounting_tool.Segments.{segment_of_sale}
use accounting_tool.Margin.Laws.{day_sales, compute_daily_margin-revenue}
use accounting_tool.Margin.Rollup.{over_segments, daily_margin_from-segments}
use accounting_tool.Margin.Costing.{IsFaithful, unit_cost-IsFaithful, resolve_or-enough}
use accounting_tool.Margin.Resolver.{
  cost_per_unit, unit_cost, resolve, made_cost, enough, ingredients_cost, bought_cost, resolve_or,
}
use accounting_tool.Margin.Resolver.{unknown_among, known_cost}
use accounting_tool.Margin.{
  count_sales, count_sale, flagged_row, sale_amount, priced_row, gross_margin_pct,
}
use accounting_tool.Prelude.Int.{pos}
use accounting_tool.Types.{
  RecipeIngredient, Segment, Recipe, DailyMargin, bar, cafe, Sale, ItemMargin,
}
use accounting_tool.Cost.{CostBook}
use accounting_tool.Recipes.{RecipeCatalog, new_catalog, for_item, recipe_for_sku}
use accounting_tool.Margin.Day.{
  Source, compute_daily_margin, compute_item_margins, item_rows, item_row, daily_margin_from,
  segment_margins_from_items, roll_up,
}
use accounting_tool.Decimal.{
  arithmetic, whole, Money, zero_money, total, plus, half_even, num_digits, same,
}
use accounting_tool.Calendar.{Date}
use accounting_tool.Prelude.{
  ℕ, Option, List, String, ◌≡◌, some, [], ◌∷◌, none, false, map, arith, refl, true,
}

abbrev day : Date
day = record { year = 2026; month = 5; day = 1 }

abbrev ingredient : String → ℕ → RecipeIngredient
ingredient sku_id n = record { sku_id = sku_id; quantity = whole n }

abbrev recipe : String → List RecipeIngredient → ℕ → Recipe
recipe sku_id ingredients n = record {
  sku_id = sku_id;
  name = sku_id;
  segment = bar;
  ingredients = ingredients;
  yield_qty = whole n;
  yield_estimated = false;
  target_gross_margin_pct = some (whole 60);
  prep = false;
}

-- Ten of the syrup cost four of the sugar; a latte takes milk and two of the syrup.
abbrev recipes : List Recipe
recipes =
    recipe "syrup" (ingredient "sugar" 4 ∷ []) 10
    ∷ recipe "latte" (ingredient "milk" 2 ∷ ingredient "syrup" 2 ∷ []) 1
    ∷ recipe "soda" (ingredient "gas" 1 ∷ []) 1
    ∷ []

abbrev sale : String → ℕ → Option Segment → Sale
sale item_id units segment = record {
  item_id = item_id;
  timestamp = day;
  sell_price = whole 60;
  quantity = pos units;
  segment = segment;
}

abbrev prices : CostBook
prices =
    ("milk", record { price = whole 10; updated_at = day })
    ∷ ("sugar", record { price = whole 5; updated_at = day })
    ∷ []

abbrev source : Source
source = record {
  sales =
      sale "latte" 2 (some cafe)
      ∷ sale "soda" 1 none
      ∷ sale "latte" 1 (some cafe)
      ∷ sale "cake" 1 (some cafe)
      ∷ [];
  recipes = recipes;
  mappings = [];
  cost_book_as_of = λ _. prices;
}

abbrev catalog : RecipeCatalog
catalog = new_catalog recipes []

program : Unit {0}
unfolding arithmetic compute_daily_margin compute_item_margins item_rows item_row count_sales
    count_sale unknown_among known_cost cost_per_unit unit_cost resolve_or made_cost
    ingredients_cost bought_cost new_catalog for_item recipe_for_sku segment_of_sale
    gross_margin_pct half_even num_digits daily_margin_from segment_margins_from_items roll_up
program = tt

abbrev headline : Option DailyMargin → Money × (Money × Money)
headline none = (zero_money, (zero_money, zero_money))
headline (some m) = (m.total_revenue, (m.total_cogs, m.flagged_revenue))

-- Three lattes at 24 each; the soda has no price for its gas and the cake no recipe.
headline_of_day :
    let h = headline (compute_daily_margin source day) in
    (h.0 ≡ whole 300) × (same h.1.0 (whole 72) ≡ true) × (h.1.1 ≡ whole 120)
unfolding program
headline_of_day = (refl, refl, refl)

abbrev rows_of_day : List ItemMargin
rows_of_day =
    flagged_row day ("cake", cafe) "cake"
      (record { units = pos 1; revenue = whole 60; sell_price = whole 60 }) false
    ∷ priced_row day ("latte", cafe) (recipe "latte" [] 1)
        (record { units = pos 3; revenue = whole 180; sell_price = whole 60 }) (whole 24)
    ∷ []

daily_margin_from-segments_example :
    let m = daily_margin_from day rows_of_day in
    (plus (over_segments (λ s. s.revenue) m) (over_segments (λ s. s.flagged_revenue) m)
      ≡ m.total_revenue)
    × (over_segments (λ s. s.flagged_revenue) m ≡ m.flagged_revenue)
    × (over_segments (λ s. s.variable_costs) m ≡ m.total_cogs)
daily_margin_from-segments_example = daily_margin_from-segments day rows_of_day

abbrev report : Option DailyMargin → DailyMargin
report none = daily_margin_from day []
report (some m) = m

reported : compute_daily_margin source day ≡ some (report (compute_daily_margin source day))
unfolding program
reported = refl

compute_daily_margin-revenue_example :
    (report (compute_daily_margin source day)).total_revenue
    ≡ total (map sale_amount (day_sales day source.sales))
compute_daily_margin-revenue_example =
    compute_daily_margin-revenue source day (report (compute_daily_margin source day)) reported

-- A memo with the syrup's cost in it.
syrup_kept : keys (unit_cost catalog prices [] "syrup").1 ≡ "syrup" ∷ []
unfolding program
syrup_kept = refl

empty-IsFaithful : IsFaithful catalog prices []
empty-IsFaithful sku_id result h = absurd (cc)

resolve_or-enough_example :
    resolve_or catalog prices (some (whole 7)) 9 "latte" []
    ≡ resolve catalog prices (enough catalog prices) "latte" []
unfolding program
resolve_or-enough_example =
    resolve_or-enough catalog prices (some (whole 7)) 9 "latte" (omega arith)

unit_cost-IsFaithful_example :
    ((unit_cost catalog prices [] "latte").0
      ≡ resolve catalog prices (enough catalog prices) "latte" [])
    × IsFaithful catalog prices (unit_cost catalog prices [] "latte").1
unit_cost-IsFaithful_example = unit_cost-IsFaithful catalog prices [] "latte" empty-IsFaithful
