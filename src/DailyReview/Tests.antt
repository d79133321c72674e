-- ===== src/DailyReview/Tests.antt =====
-- The theorems about daily_review.py at a day with a sale that has no recipe.
use accounting_tool.Segments.{segment_of_sale}
use accounting_tool.Recipes.{new_catalog, for_item, recipe_for_sku}
use accounting_tool.DailyReview.Outcome.{build_daily_review-raises, LacksThreshold}
use accounting_tool.Margin.Resolver.{
  unknown_among, known_cost, cost_per_unit, unit_cost, made_cost, ingredients_cost, bought_cost,
  resolve_or,
}
use accounting_tool.Margin.{count_sales, count_sale, gross_margin_pct}
use accounting_tool.Margin.Range.{over_range}
use accounting_tool.Prelude.Int.{pos}
use accounting_tool.Decimal.{whole, arithmetic, zero_money, plus, half_even, num_digits}
use accounting_tool.Calendar.{Date, before, prev_day, date_eq, ordinal}
use accounting_tool.Margin.Day.{
  Source, daily_margin_from, compute_daily_margin, compute_item_margins, item_rows, item_row,
  segment_margins_from_items, roll_up,
}
use accounting_tool.DailyReview.Goal.{add_slices-compute_daily_margin}
use accounting_tool.Types.{Recipe, DailyMargin, ShiftClose, bar, Sale}
use accounting_tool.DailyReview.{
  compute_goal_progress, empty_window, progress_since, build_daily_review, no_threshold, add_slices,
  no_range, goal_result, overflow_error, no_date,
}
use accounting_tool.Prelude.{
  ℕ, String, ◌∷◌, [], false, ◌≡◌, none, some, refl, Option, ◌↔◌, ◌≢◌, ◌≤◌,
}

abbrev day : ℕ → Date
day d = record { year = 2026; month = 5; day = d }

abbrev sale : String → ℕ → Sale
sale item_id d = record {
  item_id = item_id;
  timestamp = day d;
  sell_price = whole 60;
  quantity = pos 1;
  segment = some bar;
}

abbrev soda : Recipe
soda = record {
  sku_id = "soda";
  name = "Soda";
  segment = bar;
  ingredients = record { sku_id = "gas"; quantity = whole 2 } ∷ [];
  yield_qty = whole 1;
  yield_estimated = false;
  target_gross_margin_pct = none;
  prep = false;
}

abbrev source : Source
source = record {
  sales = sale "soda" 2 ∷ sale "cake" 2 ∷ [];
  recipes = soda ∷ [];
  mappings = [];
  cost_book_as_of = λ d. ("gas", record { price = whole 5; updated_at = day 1 }) ∷ [];
}

-- A partner may look at a day before the first sale.
before_sales : compute_goal_progress source (day 1) ≡ goal_result (over_range empty_window)
unfolding compute_goal_progress before prev_day progress_since
before_sales = refl

-- The first week of the calendar has no six days before it.
first_week :
    (compute_goal_progress source (record { year = 1; month = 1; day = 6 }) ≡ overflow_error)
    × (compute_goal_progress source (record { year = 1; month = 1; day = 7 })
        ≡ goal_result (over_range empty_window))
unfolding compute_goal_progress before prev_day progress_since
first_week = (refl, refl)

abbrev close : ShiftClose
close = record {
  shift_id = "s";
  cashier_id = "noi";
  closed_at = record { date = day 2; hour = 22; minute = 0; micros = 0 };
  opening_cash = whole 100;
  closing_cash = whole 100;
  rung_up_cash = zero_money;
  variance = zero_money;
}

program : Unit {0}
unfolding arithmetic compute_daily_margin compute_item_margins item_rows item_row count_sales
    count_sale unknown_among known_cost cost_per_unit unit_cost resolve_or made_cost
    ingredients_cost bought_cost new_catalog for_item recipe_for_sku segment_of_sale
    gross_margin_pct half_even num_digits daily_margin_from segment_margins_from_items roll_up
program = tt

abbrev report : Option DailyMargin → DailyMargin
report none = daily_margin_from (day 2) []
report (some m) = m

reported : compute_daily_margin source (day 2) ≡ some (report (compute_daily_margin source (day 2)))
unfolding program
reported = refl

-- The cake has no recipe.
flagged_cake : (report (compute_daily_margin source (day 2))).flagged_revenue ≡ whole 60
unfolding program
flagged_cake = refl

add_slices-compute_daily_margin_example :
    let m = report (compute_daily_margin source (day 2)) in
    plus
      (add_slices (record { day = day 2; item_margins = m.item_margins } ∷ []) (zero_money, 0)).0
      m.flagged_revenue
    ≡ m.total_gross_margin
add_slices-compute_daily_margin_example =
    add_slices-compute_daily_margin source (day 2) (report (compute_daily_margin source (day 2)))
      reported

build_daily_review-raises_example :
    let result = build_daily_review source (day 2) none (some (close ∷ [])) none none in
    ((result ≡ no_threshold) ↔ (
      (compute_daily_margin source (day 2) ≢ none)
      × LacksThreshold (day 2) (some (close ∷ [])) none))
    × (result ≢ no_range)
    × ((result ≡ no_date) ↔ (
        (compute_daily_margin source (day 2) ≢ none)
        × ((¬ LacksThreshold (day 2) (some (close ∷ [])) none)
            × ((source.sales ≢ []) × (ordinal (day 2) ≤ 6)))))
unfolding before
build_daily_review-raises_example =
    build_daily_review-raises source (day 2) none (some (close ∷ [])) none none refl
