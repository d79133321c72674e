-- ===== src/Margin/Breakdown.antt =====
-- margin.py: the leaves without a price below a SKU, and the lines that its cost is made of.
pub mod Leaves
pub mod Lines
mod Tests
use accounting_tool.Prelude.Dict.{get_or}
use accounting_tool.Decimal.{Decimal, times}
use accounting_tool.Margin.Resolver.{unit_cost, Memo, is_seen, enough}
use accounting_tool.Cost.{CostBook, price}
use accounting_tool.Types.{RecipeIngredient, CostBreakdown, CostBreakdownLine}
use accounting_tool.Recipes.{RecipeCatalog, recipe_for_sku}
use accounting_tool.Prelude.{
  ℕ, String, List, if◌then◌else◌, ◌∷◌, any, Option, [], ◌=?◌, suc, ◌++◌, none, string_eq, some,
  zero,
}

abbrev pub add_leaf : String → List String → List String
add_leaf leaf leaves = if any (λ l. leaf =? l) leaves then leaves else leaves ++ (leaf ∷ [])

abbrev pub add_leaves : List String → List String → List String
add_leaves [] leaves = leaves
add_leaves (leaf ∷ more) leaves = add_leaves more (add_leaf leaf leaves)

-- The two loops of `unpriced_leaves`, given the leaves below an ingredient.
abbrev pub leaves_among : (String → List String) → List RecipeIngredient → List String → List String
leaves_among below [] leaves = leaves
leaves_among below (ing ∷ rest) leaves =
    leaves_among below rest (add_leaves (below ing.sku_id) leaves)

module _ (recipes : RecipeCatalog) (cost : CostBook) where
  -- On fuel: no SKU with a recipe is entered below itself, so that as many as there are recipes,
  -- and one, are enough. `spent` stands for the source's going on where it is used up.
  unfoldable pub leaves_or : List String → ℕ → String → List String → List String
  leaves_or spent zero sku_id seen = spent
  leaves_or spent (suc fuel) sku_id seen = elim (recipe_for_sku recipes sku_id) [
    | none ↦ elim (price cost sku_id) [ none ↦ sku_id ∷ [] | some _ ↦ [] ]
    | some recipe ↦
        if is_seen sku_id seen
        then []
        else leaves_among (λ child. leaves_or spent fuel child (sku_id ∷ seen)) recipe.ingredients
            []
  ]

  abbrev pub unpriced_leaves : ℕ → String → List String → List String
  unpriced_leaves fuel sku_id seen = leaves_or [] fuel sku_id seen

  abbrev pub line_for :
      List (String × String) → RecipeIngredient → Option Decimal → CostBreakdownLine
  line_for name_of ing unit = record {
    sku_id = ing.sku_id;
    name = get_or ing.sku_id ing.sku_id name_of;
    quantity = ing.quantity;
    unit_price = unit;
    line_cost = elim unit [ none ↦ none | some u ↦ some (times ing.quantity u) ];
  }

  -- The loop over the ingredients, with the resolver's memo.
  unfoldable pub breakdown_lines :
      List (String × String) → Memo → List RecipeIngredient → List CostBreakdownLine × Memo
  unfolding unit_cost times
  breakdown_lines name_of memo [] = ([], memo)
  breakdown_lines name_of memo (ing ∷ rest) =
      let (unit, after) = unit_cost recipes cost memo ing.sku_id in
      let later = breakdown_lines name_of after rest in
      (line_for name_of ing unit ∷ later.0, later.1)

  -- None is the ValueError of a SKU without a recipe.
  unfoldable pub cost_breakdown : String → List (String × String) → Option CostBreakdown
  unfolding breakdown_lines leaves_or
  cost_breakdown sku_id name_of = elim (recipe_for_sku recipes sku_id) [
    | none ↦ none
    | some recipe ↦
        let made = breakdown_lines name_of [] recipe.ingredients in
        some (record {
          sku_id = sku_id;
          per_unit = (unit_cost recipes cost made.1 sku_id).0;
          yield_qty = recipe.yield_qty;
          lines = made.0;
          unpriced = unpriced_leaves (enough recipes cost) sku_id [];
        })
  ]
