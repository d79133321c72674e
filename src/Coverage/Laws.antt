-- ===== src/Coverage/Laws.antt =====
-- coverage.py: the rows are what the resolver says of each SKU by itself.
use accounting_tool.Prelude.Text.{str_before}
use accounting_tool.Prelude.Sort.{sort}
use accounting_tool.Prelude.Dict.{lookup}
use accounting_tool.Margin.Costing.{IsFaithful, unit_cost-IsFaithful}
use accounting_tool.Coverage.{
  derived_cost_per_unit, priced_count, cover_sku, cover_skus, sku_health, or_worse, recipes_by_sku,
  classify_sku, coverage_row, ingredients_of, count_mappings, build_sku_coverage,
}
use accounting_tool.Margin.Resolver.{resolve, Memo, enough, unit_cost}
use accounting_tool.Decimal.{Decimal, Money}
use accounting_tool.Cost.{CostBook}
use accounting_tool.Recipes.{RecipeCatalog, new_catalog}
use accounting_tool.Types.{
  SkuHealth, Recipe, SkuClassification, red, RecipeIngredient, SkuMapping, green, SkuRecord,
  SkuCoverageRow, yellow, dangling, active, prep_internal,
}
use accounting_tool.Prelude.{
  ℕ, Option, String, List, none, ◌∷◌, [], ◌≡◌, some, suc, map, refl, ap, ◌∙◌, string_eq,
}

-- The health of a SKU, given what it costs.
abbrev pub health_at : Option Recipe → SkuClassification → Option Decimal → SkuHealth
health_at recipe dangling unit = red
health_at none classification unit = or_worse red unit
health_at (some recipe) classification unit = elim recipe.ingredients [
  | [] ↦ red
  | _ ∷ _ ↦ or_worse yellow unit
]

abbrev pub shown_at : SkuHealth → Option Decimal → Option Money
shown_at green unit = unit
shown_at _ unit = none

abbrev pub count_priced : (String → Option Decimal) → List RecipeIngredient → ℕ
count_priced cost_of [] = 0
count_priced cost_of (ing ∷ rest) =
    let later = count_priced cost_of rest in
    elim (cost_of ing.sku_id) [ none ↦ later | some _ ↦ suc later ]

module _ (catalog : RecipeCatalog) (cost : CostBook) where
  abbrev at : String → Option Decimal
  at sku_id = resolve catalog cost (enough catalog cost) sku_id []

  by_ingredients :
      (memo : Memo) (sku_id : String) (ingredients : List RecipeIngredient)
      → IsFaithful catalog cost memo
      → ((elim ingredients as (λ _. SkuHealth × Memo) [
        | [] ↦ (red, memo)
        | _ ∷ _ ↦ (
          or_worse yellow (unit_cost catalog cost memo sku_id).0,
          (unit_cost catalog cost memo sku_id).1,
        )
      ]).0
          ≡ elim ingredients as (λ _. SkuHealth) [ [] ↦ red | _ ∷ _ ↦ or_worse yellow (at sku_id) ])
        × IsFaithful catalog cost
            (elim ingredients as (λ _. SkuHealth × Memo) [
              | [] ↦ (red, memo)
              | _ ∷ _ ↦ (
                or_worse yellow (unit_cost catalog cost memo sku_id).0,
                (unit_cost catalog cost memo sku_id).1,
              )
            ]).1
  by_ingredients memo sku_id [] ok = (refl, ok)
  by_ingredients memo sku_id (_ ∷ _) ok =
      let (same, kept) = unit_cost-IsFaithful catalog cost memo sku_id ok in
      (ap (or_worse yellow) same, kept)

  sku_health-at :
      (memo : Memo) (sku_id : String) (recipe : Option Recipe) (classification : SkuClassification)
      → IsFaithful catalog cost memo
      → ((sku_health catalog cost memo sku_id recipe classification).0
          ≡ health_at recipe classification (at sku_id))
        × IsFaithful catalog cost (sku_health catalog cost memo sku_id recipe classification).1
  unfolding sku_health
  sku_health-at memo sku_id recipe dangling ok = (refl, ok)
  sku_health-at memo sku_id none active ok =
      (let (same, kept) = unit_cost-IsFaithful catalog cost memo sku_id ok in
        (ap (or_worse red) same, kept))
  sku_health-at memo sku_id none prep_internal ok =
      (let (same, kept) = unit_cost-IsFaithful catalog cost memo sku_id ok in
        (ap (or_worse red) same, kept))
  sku_health-at memo sku_id (some recipe) active ok =
      by_ingredients memo sku_id recipe.ingredients ok
  sku_health-at memo sku_id (some recipe) prep_internal ok =
      by_ingredients memo sku_id recipe.ingredients ok

  priced_count-at :
      (memo : Memo) (ingredients : List RecipeIngredient)
      → IsFaithful catalog cost memo
      → ((priced_count catalog cost memo ingredients).0 ≡ count_priced at ingredients)
        × IsFaithful catalog cost (priced_count catalog cost memo ingredients).1
  unfolding priced_count
  priced_count-at memo [] ok = (refl, ok)
  priced_count-at memo (ing ∷ rest) ok =
      let (result, after_ok) = unit_cost-IsFaithful catalog cost memo ing.sku_id ok in
      let after = (unit_cost catalog cost memo ing.sku_id).1 in
      let (later, later_ok) = priced_count-at after rest after_ok in
      (
        ap
              (λ t. elim t [
                | none ↦ (priced_count catalog cost after rest).0
                | some _ ↦ suc (priced_count catalog cost after rest).0
              ])
              result
            ∙ ap (λ n. elim (at ing.sku_id) [ none ↦ n | some _ ↦ suc n ]) later,
        later_ok,
      )

  derived_cost_per_unit-at :
      (memo : Memo) (sku_id : String) (health : SkuHealth)
      → IsFaithful catalog cost memo
      → ((derived_cost_per_unit catalog cost memo sku_id health).0 ≡ shown_at health (at sku_id))
        × IsFaithful catalog cost (derived_cost_per_unit catalog cost memo sku_id health).1
  unfolding derived_cost_per_unit
  derived_cost_per_unit-at memo sku_id green ok = unit_cost-IsFaithful catalog cost memo sku_id ok
  derived_cost_per_unit-at memo sku_id yellow ok = (refl, ok)
  derived_cost_per_unit-at memo sku_id red ok = (refl, ok)

  -- The row of a SKU, each cost of it resolved afresh.
  abbrev pub fresh_row : List Recipe → List SkuMapping → SkuRecord → SkuCoverageRow
  fresh_row recipes mappings sku =
      let recipe = lookup sku.sku_id (recipes_by_sku recipes) in
      let classification = classify_sku sku.sku_id recipes mappings in
      let health = health_at recipe classification (at sku.sku_id) in
      coverage_row catalog cost (count_mappings mappings []) sku recipe classification health
        (count_priced at (ingredients_of recipe)) (shown_at health (at sku.sku_id))

  cover_sku-at :
      (recipes : List Recipe) (mappings : List SkuMapping) (memo : Memo) (sku : SkuRecord)
      → IsFaithful catalog cost memo
      → ((cover_sku catalog cost recipes mappings memo sku).0 ≡ fresh_row recipes mappings sku)
        × IsFaithful catalog cost (cover_sku catalog cost recipes mappings memo sku).1
  unfolding cover_sku
  cover_sku-at recipes mappings memo sku ok =
      let recipe = lookup sku.sku_id (recipes_by_sku recipes) in
      let classification = classify_sku sku.sku_id recipes mappings in
      let (h, h_ok) = sku_health-at memo sku.sku_id recipe classification ok in
      let (p, p_ok) =
        priced_count-at (sku_health catalog cost memo sku.sku_id recipe classification).1
          (ingredients_of recipe) h_ok in
      let (c, c_ok) =
        derived_cost_per_unit-at
          (priced_count catalog cost
            (sku_health catalog cost memo sku.sku_id recipe classification).1
            (ingredients_of recipe)).1
          sku.sku_id (sku_health catalog cost memo sku.sku_id recipe classification).0 p_ok in
      (rw (c, h, p) refl, c_ok)

  cover_skus-at :
      (recipes : List Recipe) (mappings : List SkuMapping) (memo : Memo) (skus : List SkuRecord)
      → IsFaithful catalog cost memo
      → cover_skus catalog cost recipes mappings memo skus ≡ map (fresh_row recipes mappings) skus
  unfolding cover_skus
  cover_skus-at recipes mappings memo [] ok = refl
  cover_skus-at recipes mappings memo (sku ∷ skus) ok =
      let (row, row_ok) = cover_sku-at recipes mappings memo sku ok in
      ap
        (λ r.
          r
          ∷ cover_skus catalog cost recipes mappings
              (cover_sku catalog cost recipes mappings memo sku).1 skus)
        row
      ∙ ap (λ rs. fresh_row recipes mappings sku ∷ rs)
          (cover_skus-at recipes mappings (cover_sku catalog cost recipes mappings memo sku).1 skus
            row_ok)

-- Each row is made of the costs that the SKU and its ingredients have when each is resolved
-- afresh, whatever rows come before it: the memo that the rows share changes none.
pub build_sku_coverage_lem :
    (skus : List SkuRecord) (recipes : List Recipe) (mappings : List SkuMapping) (cost : CostBook)
    → build_sku_coverage skus recipes mappings cost
      ≡ map
          (fresh_row (new_catalog recipes mappings) cost recipes mappings)
          (sort (λ a b. str_before a.sku_id b.sku_id) skus)
unfolding build_sku_coverage
build_sku_coverage_lem skus recipes mappings cost =
    cover_skus-at (new_catalog recipes mappings) cost recipes mappings []
      (sort (λ a b. str_before a.sku_id b.sku_id) skus) (λ sku_id result h. absurd (cc))
