-- ===== src/Margin/Resolver.antt =====
-- margin.py: `CostResolver`, the cost of one unit of a SKU.
use accounting_tool.Prelude.Dict.{lookup, insert}
use accounting_tool.Decimal.{Decimal, Money, at_most, plus, zero_money, times, divide, quotient}
use accounting_tool.Types.{Recipe, RecipeIngredient}
use accounting_tool.Cost.{CostBook, price}
use accounting_tool.Recipes.{RecipeCatalog, recipe_for_sku}
use accounting_tool.Prelude.{
  ◌>>=◌, ℕ, String, List, Option, Bool, any, length, ◌+◌, none, ◌=?◌, ◌∷◌, false, if◌then◌else◌,
  some, string_eq, [], true, suc, zero, not,
}

-- The results that the resolver keeps, an unpriceable SKU's `None` among them.
abbrev pub Memo : Type 0
Memo = List (String × Option Decimal)

-- The sum over a recipe's ingredients, which an unpriceable one makes `None`.
unfoldable pub ingredients_cost :
    (String → Option Decimal) → Decimal → List RecipeIngredient → Option Decimal
ingredients_cost cost_of acc [] = some acc
ingredients_cost cost_of acc (ing ∷ rest) = do
  child ← cost_of ing.sku_id
  ingredients_cost cost_of (plus acc (times ing.quantity child)) rest

abbrev pub is_seen : String → List String → Bool
is_seen sku_id seen = any (λ s. sku_id =? s) seen

module _ (recipes : RecipeCatalog) (cost : CostBook) where
  -- A SKU without a recipe has the price of the book.
  unfoldable pub bought_cost : String → Option Decimal
  bought_cost sku_id = elim (price cost sku_id) [ none ↦ none | some entry ↦ some entry.price ]

  -- A SKU with a recipe, given what its ingredients cost.
  unfoldable pub made_cost : (String → Option Decimal) → Recipe → Option Decimal
  unfolding ingredients_cost
  made_cost cost_of recipe = if at_most recipe.yield_qty zero_money then none else do
    sum ← ingredients_cost cost_of zero_money recipe.ingredients
    some (quotient sum recipe.yield_qty)

  -- `unit_cost` below the SKU that was asked for, where the memo is neither read nor written. The
  -- source has no fuel: `spent` is what stands for its going on where this one is used up.
  unfoldable pub resolve_or : Option Decimal → ℕ → String → List String → Option Decimal
  unfolding bought_cost made_cost
  resolve_or spent zero sku_id seen = spent
  resolve_or spent (suc fuel) sku_id seen = elim (recipe_for_sku recipes sku_id) [
    | none ↦ bought_cost sku_id
    | some recipe ↦
        if is_seen sku_id seen
        then none
        else made_cost (λ child. resolve_or spent fuel child (sku_id ∷ seen)) recipe
  ]

  abbrev pub resolve : ℕ → String → List String → Option Decimal
  resolve fuel sku_id seen = resolve_or none fuel sku_id seen

  -- As many recipes as there are can be open at once, and then an ingredient.
  abbrev pub enough : ℕ
  enough = length recipes.by_sku + 1

  -- A yield that is not positive is given up before the result is kept.
  abbrev pub is_kept : String → Bool
  is_kept sku_id = elim (recipe_for_sku recipes sku_id) [
    | none ↦ true
    | some recipe ↦ not (at_most recipe.yield_qty zero_money)
  ]

  unfoldable pub unit_cost : Memo → String → Option Decimal × Memo
  unfolding resolve_or
  unit_cost memo sku_id = elim (lookup sku_id memo) [
    | some known ↦ (known, memo)
    | none ↦
        let result = resolve enough sku_id [] in
        (result, if is_kept sku_id then insert sku_id result memo else memo)
  ]

  -- `any` stops at the first ingredient without a cost.
  unfoldable pub unknown_among : Memo → List RecipeIngredient → Bool × Memo
  unfolding unit_cost
  unknown_among memo [] = (false, memo)
  unknown_among memo (ing ∷ rest) =
      let (result, after) = unit_cost memo ing.sku_id in
      let later = unknown_among after rest in elim result [ none ↦ (true, after) | some _ ↦ later ]

  abbrev pub has_unknown_price : Memo → Recipe → Bool × Memo
  has_unknown_price memo recipe = unknown_among memo recipe.ingredients

  -- Ingredients without a cost are left out.
  unfoldable pub known_cost : Memo → Decimal → List RecipeIngredient → Decimal × Memo
  unfolding unit_cost
  known_cost memo acc [] = (acc, memo)
  known_cost memo acc (ing ∷ rest) =
      let (result, after) = unit_cost memo ing.sku_id in
      known_cost after (elim result [ none ↦ acc | some unit ↦ plus acc (times ing.quantity unit) ])
        rest

  -- The division raises for a yield of zero.
  unfoldable pub cost_per_unit : Memo → Recipe → Option (Money × Memo)
  unfolding known_cost
  cost_per_unit memo recipe =
      let (sum, after) = known_cost memo zero_money recipe.ingredients in
      do per_unit ← divide sum recipe.yield_qty; some (per_unit, after)
