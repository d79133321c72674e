-- ===== src/Margin/Breakdown/Tests.antt =====
-- A run of the cost breakdown of margin.py.
use accounting_tool.Margin.Resolver.{enough}
use accounting_tool.Decimal.{whole}
use accounting_tool.Types.{RecipeIngredient, Recipe, bar}
use accounting_tool.Cost.{CostBook}
use accounting_tool.Recipes.{RecipeCatalog, recipe_for_sku, new_catalog}
use accounting_tool.Margin.Breakdown.{cost_breakdown, unpriced_leaves, leaves_or}
use accounting_tool.Prelude.{ℕ, String, List, ◌∷◌, [], ◌≡◌, refl, false, none}

abbrev ingredient : String → ℕ → RecipeIngredient
ingredient sku_id n = record { sku_id = sku_id; quantity = whole n }

abbrev made : String → List RecipeIngredient → Recipe
made sku_id ingredients = record {
  sku_id = sku_id;
  name = sku_id;
  segment = bar;
  ingredients = ingredients;
  yield_qty = whole 1;
  yield_estimated = false;
  target_gross_margin_pct = none;
  prep = false;
}

-- The syrup is made of itself too; the gas is used twice and has no cost.
abbrev catalog : RecipeCatalog
catalog =
    new_catalog
      (made "soda" (ingredient "gas" 1 ∷ ingredient "syrup" 1 ∷ ingredient "ice" 3 ∷ [])
        ∷ made "syrup" (ingredient "sugar" 2 ∷ ingredient "gas" 1 ∷ ingredient "syrup" 1 ∷ [])
        ∷ [])
      []

abbrev cost : CostBook
cost =
    ("ice", record { price = whole 2; updated_at = record { year = 2026; month = 5; day = 1 } })
    ∷ []

-- Each leaf once, as it is first seen.
missing : unpriced_leaves catalog cost (enough catalog cost) "soda" [] ≡ "gas" ∷ "sugar" ∷ []
unfolding leaves_or recipe_for_sku new_catalog
missing = refl

not_made : cost_breakdown catalog cost "ice" [] ≡ none
unfolding cost_breakdown recipe_for_sku new_catalog
not_made = refl
