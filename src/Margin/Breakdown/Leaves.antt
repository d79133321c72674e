-- ===== src/Margin/Breakdown/Leaves.antt =====
-- margin.py: the walk to the leaves without a price ends by itself.
use accounting_tool.Prelude.Dict.{keys, lookup}
use accounting_tool.Margin.Costing.{free, length-keep_le, free_lt, In-keys}
use accounting_tool.Types.{RecipeIngredient}
use accounting_tool.Margin.Breakdown.{unpriced_leaves, leaves_among, leaves_or}
use accounting_tool.Margin.Resolver.{enough, is_seen}
use accounting_tool.Cost.{CostBook}
use accounting_tool.Recipes.{RecipeCatalog, recipe_for_sku}
use accounting_tool.Prelude.{
  ℕ, String, List, ◌≡◌, ◌≤◌, [], ap, ◌<◌, not, fun_ext, arith, length-map, suc, Option-cases, inl,
  inr, Bool-cases, ◌∷◌, zero, string_eq,
}

leaves_among_ap :
    {f g : String → List String}
    → ((child : String) → f child ≡ g child)
    → (ingredients : List RecipeIngredient) (leaves : List String)
    → leaves_among f ingredients leaves ≡ leaves_among g ingredients leaves
leaves_among_ap same ingredients leaves =
    ap (λ below. leaves_among below ingredients leaves) (fun_ext same)

module _ (recipes : RecipeCatalog) (cost : CostBook) where
  leaves_at_least :
      (x y : List String) (f g : ℕ) (sku_id : String) (seen : List String)
      → free seen (keys recipes.by_sku) < f
      → free seen (keys recipes.by_sku) < g
      → leaves_or recipes cost x f sku_id seen ≡ leaves_or recipes cost y g sku_id seen
  unfolding leaves_or recipe_for_sku
  leaves_at_least x y zero g sku_id seen h k = absurd (omega arith)
  leaves_at_least x y (suc f) zero sku_id seen h k = absurd (omega arith)
  leaves_at_least x y (suc f) (suc g) sku_id seen h k =
      elim (Option-cases (lookup sku_id recipes.by_sku)) [
        | inl bought ↦ rw (leaves_or, bought)
        | inr (recipe, made) ↦ elim (Bool-cases (is_seen sku_id seen)) [
          | inl loop ↦ rw (leaves_or, made, loop)
          | inr fresh ↦
              let less =
                free_lt seen sku_id (keys recipes.by_sku) fresh
                  (In-keys sku_id recipe recipes.by_sku made) in
              rw (leaves_or, made, fresh)
                (leaves_among_ap
                  (λ child.
                    leaves_at_least x y f g child (sku_id ∷ seen) (omega arith) (omega arith))
                  recipe.ingredients [])
        ]
      ]

  -- The fuel that the walk is given is never used up: what is found does not depend on what would
  -- be said there, nor on more of it, however the recipes use one another, in loops too.
  pub leaves_or-enough :
      (spent : List String) (fuel : ℕ) (sku_id : String)
      → enough recipes cost ≤ fuel
      → leaves_or recipes cost spent fuel sku_id []
        ≡ unpriced_leaves recipes cost (enough recipes cost) sku_id []
  leaves_or-enough spent fuel sku_id h =
      let few = length-keep_le (λ k. not (is_seen k [])) (keys recipes.by_sku) in
      let all = length-map (λ p. p.0) recipes.by_sku in
      leaves_at_least spent [] fuel (enough recipes cost) sku_id [] (omega arith) (omega arith)
