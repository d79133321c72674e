-- ===== src/Recipes/Tests.antt =====
-- Runs of the search of recipes.py, and its theorems at them.
use accounting_tool.Recipes.Termination.{find_recipe_cycle-ends}
use accounting_tool.Recipes.Decides.{
  IsLoop, find_recipe_cycle-IsLoop, find_recipe_cycle-no_cycle_iff,
}
use accounting_tool.Decimal.{whole}
use accounting_tool.Types.{Recipe, cafe}
use accounting_tool.Recipes.{
  find_recipe_cycle, walk, try_edges, recipe_edges, no_cycle, cycle, out_of_fuel,
}
use accounting_tool.Prelude.{String, List, ◌∷◌, [], ◌≡◌, map, refl, false, none, true, ◌≢◌, ◌↔◌}

abbrev recipe : String → List String → Recipe
recipe sku_id ingredients = record {
  sku_id = sku_id;
  name = sku_id;
  segment = cafe;
  ingredients = map (λ i. record { sku_id = i; quantity = whole 1 }) ingredients;
  yield_qty = whole 1;
  yield_estimated = false;
  target_gross_margin_pct = none;
  prep = true;
}

-- The sauce is made with itself too, which is no loop of the marinade's.
abbrev recipes : List Recipe
recipes =
    recipe "sauce" ("salt" ∷ "sauce" ∷ "paste" ∷ [])
    ∷ recipe "paste" ("chili" ∷ "marinade" ∷ [])
    ∷ recipe "marinade" ("salt" ∷ [])
    ∷ []

program : Unit {0}
unfolding find_recipe_cycle walk try_edges recipe_edges
program = tt

closes :
    find_recipe_cycle recipes "marinade" ("oil" ∷ "sauce" ∷ [])
    ≡ cycle ("marinade" ∷ "sauce" ∷ "sauce" ∷ "paste" ∷ "marinade" ∷ [])
unfolding program
closes = refl

stays_open : find_recipe_cycle recipes "marinade" ("oil" ∷ "chili" ∷ []) ≡ no_cycle
unfolding program
stays_open = refl

find_recipe_cycle-ends_example : find_recipe_cycle recipes "marinade" ("sauce" ∷ []) ≢ out_of_fuel
find_recipe_cycle-ends_example = find_recipe_cycle-ends recipes "marinade" ("sauce" ∷ [])

find_recipe_cycle-IsLoop_example :
    IsLoop
      (recipe_edges recipes "marinade" ("oil" ∷ "sauce" ∷ []))
      "marinade"
      ("marinade" ∷ "sauce" ∷ "sauce" ∷ "paste" ∷ "marinade" ∷ [])
find_recipe_cycle-IsLoop_example =
    find_recipe_cycle-IsLoop recipes "marinade" ("oil" ∷ "sauce" ∷ [])
      ("marinade" ∷ "sauce" ∷ "sauce" ∷ "paste" ∷ "marinade" ∷ []) closes

find_recipe_cycle-no_cycle_iff_example :
    (find_recipe_cycle recipes "marinade" ("oil" ∷ "chili" ∷ []) ≡ no_cycle) ↔ (
      (loop : List String)
      → ¬ IsLoop (recipe_edges recipes "marinade" ("oil" ∷ "chili" ∷ [])) "marinade" loop)
find_recipe_cycle-no_cycle_iff_example =
    find_recipe_cycle-no_cycle_iff recipes "marinade" ("oil" ∷ "chili" ∷ [])
