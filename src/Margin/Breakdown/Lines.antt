-- ===== src/Margin/Breakdown/Lines.antt =====
-- margin.py: the breakdown of a cost has the costs that its parts have each by itself.
use accounting_tool.Margin.Costing.{IsFaithful, fresh_cost, unit_cost-IsFaithful}
use accounting_tool.Margin.Resolver.{Memo, enough, unit_cost}
use accounting_tool.Types.{Recipe, RecipeIngredient}
use accounting_tool.Margin.Breakdown.{breakdown_lines, cost_breakdown, line_for, unpriced_leaves}
use accounting_tool.Cost.{CostBook}
use accounting_tool.Recipes.{RecipeCatalog, recipe_for_sku}
use accounting_tool.Prelude.{String, List, ◌≡◌, map, some, ◌∷◌, [], ap, ◌∙◌, refl}

module _ (recipes : RecipeCatalog) (cost : CostBook) where
  breakdown_lines-fresh_cost :
      (name_of : List (String × String)) (memo : Memo) (ingredients : List RecipeIngredient)
      → IsFaithful recipes cost memo
      → ((breakdown_lines recipes cost name_of memo ingredients).0
          ≡ map
              (λ ing. line_for recipes cost name_of ing (fresh_cost recipes cost ing.sku_id))
              ingredients)
        × IsFaithful recipes cost (breakdown_lines recipes cost name_of memo ingredients).1
  unfolding breakdown_lines
  breakdown_lines-fresh_cost name_of memo [] ok = (refl, ok)
  breakdown_lines-fresh_cost name_of memo (ing ∷ rest) ok =
      let (result, after_ok) = unit_cost-IsFaithful recipes cost memo ing.sku_id ok in
      let after = (unit_cost recipes cost memo ing.sku_id).1 in
      let (later, later_ok) = breakdown_lines-fresh_cost name_of after rest after_ok in
      (
        ap
              (λ u.
                line_for recipes cost name_of ing u
                ∷ (breakdown_lines recipes cost name_of after rest).0)
              result
            ∙ ap (λ ls. line_for recipes cost name_of ing (fresh_cost recipes cost ing.sku_id) ∷ ls)
                later,
        later_ok,
      )

  -- A SKU that has a recipe has a breakdown, with a line for each of its ingredients; the costs in it
  -- are those that the SKU and each ingredient have when they are resolved afresh.
  pub cost_breakdown_lem :
      (sku_id : String) (name_of : List (String × String)) (recipe : Recipe)
      → recipe_for_sku recipes sku_id ≡ some recipe
      → cost_breakdown recipes cost sku_id name_of
        ≡ some (record {
          sku_id = sku_id;
          per_unit = fresh_cost recipes cost sku_id;
          yield_qty = recipe.yield_qty;
          lines =
              map
                (λ ing. line_for recipes cost name_of ing (fresh_cost recipes cost ing.sku_id))
                recipe.ingredients;
          unpriced = unpriced_leaves recipes cost (enough recipes cost) sku_id [];
        })
  unfolding cost_breakdown
  cost_breakdown_lem sku_id name_of recipe made =
      let (lines, ok) =
        breakdown_lines-fresh_cost name_of [] recipe.ingredients (λ k v h. absurd (cc)) in
      let (unit, _) =
        unit_cost-IsFaithful recipes cost
          (breakdown_lines recipes cost name_of [] recipe.ingredients).1 sku_id ok in
      rw (cost_breakdown, made, lines, unit) refl
