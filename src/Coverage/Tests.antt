-- ===== src/Coverage/Tests.antt =====
-- Runs of coverage.py, and its theorems at them.
use accounting_tool.Coverage.Honest.{IsHonest, build_sku_coverage-IsHonest}
use accounting_tool.Prelude.Int.{◌*ℤ◌, ◌-ℤ◌, ◌+ℤ◌}
use accounting_tool.Recipes.{new_catalog, recipe_for_sku}
use accounting_tool.Decimal.{whole, less, quotient, plus, times}
use accounting_tool.Types.{Recipe, SkuMapping, SkuRecord, bar, red, green, yellow, cafe, SkuHealth}
use accounting_tool.Loyverse.Store.{MenuDict}
use accounting_tool.Cost.{CostBook}
use accounting_tool.Coverage.{build_sku_coverage, build_item_coverage, cover_item}
use accounting_tool.Prelude.{List, All, String, map, none, ◌≡◌, ◌∷◌, some, [], false, refl, Option}

abbrev sku : String → SkuRecord
sku sku_id = record { sku_id = sku_id; name = sku_id; segment = none; unit = none }

abbrev skus : List SkuRecord
skus = sku "tea" ∷ sku "soda" ∷ sku "gas" ∷ sku "leaf" ∷ sku "salt" ∷ []

abbrev made : String → String → Recipe
made sku_id from = record {
  sku_id = sku_id;
  name = sku_id;
  segment = bar;
  ingredients = record { sku_id = from; quantity = whole 2 } ∷ [];
  yield_qty = whole 1;
  yield_estimated = false;
  target_gross_margin_pct = none;
  prep = false;
}

-- Of tea and soda, the leaf of the tea has a cost.
abbrev recipes : List Recipe
recipes = made "tea" "leaf" ∷ made "soda" "gas" ∷ []

abbrev mappings : List SkuMapping
mappings = record { item_id = "A"; sku_id = "tea" } ∷ record { item_id = "B"; sku_id = "soda" } ∷ []

abbrev cost : CostBook
cost =
    ("leaf", record { price = whole 3; updated_at = record { year = 2026; month = 5; day = 1 } })
    ∷ []

abbrev menu : MenuDict
menu =
    ("A", record { item_id = "A"; name = "Tea"; sell_price = whole 10; segment = cafe })
    ∷ ("B", record { item_id = "B"; name = "Soda"; sell_price = whole 9; segment = cafe })
    ∷ ("C", record { item_id = "C"; name = "Cake"; sell_price = whole 8; segment = cafe })
    ∷ []

-- Gas is used without a cost, leaf with one; salt is not used.
healths :
    map {B = String × SkuHealth}
      (λ r. (r.sku_id, r.health))
      (build_sku_coverage skus recipes mappings cost)
    ≡ ("gas", red) ∷ ("leaf", green) ∷ ("salt", red) ∷ ("soda", yellow) ∷ ("tea", green) ∷ []
unfolding build_sku_coverage recipe_for_sku less ◌*ℤ◌
healths = refl

-- The cake, without a SKU, comes first.
worst_first :
    map {B = String × Option SkuHealth}
      (λ r. (r.name, r.sku_health))
      (build_item_coverage (λ s. s) menu skus recipes mappings cost)
    ≡ ("Cake", none) ∷ ("Soda", some yellow) ∷ ("Tea", some green) ∷ []
unfolding build_item_coverage recipe_for_sku less ◌*ℤ◌ cover_item ◌-ℤ◌ quotient plus times ◌+ℤ◌
worst_first = refl

build_sku_coverage-IsHonest_example :
    All
      (IsHonest (new_catalog recipes mappings) cost)
      (build_sku_coverage skus recipes mappings cost)
build_sku_coverage-IsHonest_example = build_sku_coverage-IsHonest skus recipes mappings cost
