-- ===== src/Coverage/Honest.antt =====
-- coverage.py: a cost is shown exactly on the SKUs that are green.
use accounting_tool.Prelude.Text.{str_before}
use accounting_tool.Coverage.Laws.{
  count_priced, health_at, fresh_row, shown_at, build_sku_coverage_lem,
}
use accounting_tool.Margin.Resolver.{resolve, enough}
use accounting_tool.Prelude.Sort.{place, sort}
use accounting_tool.Prelude.Dict.{lookup}
use accounting_tool.Decimal.{Decimal}
use accounting_tool.Cost.{CostBook}
use accounting_tool.Recipes.{RecipeCatalog, new_catalog}
use accounting_tool.Types.{
  Recipe, SkuCoverageRow, SkuRecord, green, SkuMapping, SkuClassification, RecipeIngredient, red,
  SkuHealth, yellow, dangling, active, prep_internal,
}
use accounting_tool.Coverage.{
  build_sku_coverage, recipes_by_sku, classify_sku, or_worse, ingredients_of,
}
use accounting_tool.Prelude.{
  Option, List, Bool, String, ◌≡◌, All, map, Bool-cases, some, none, ◌∷◌, string_eq, [], inl, ◌≤◌,
  ◌≢◌, length, inr, subst, sym, arith, ◌∙◌, refl,
}

module _ {A B : Type 0} where
  pub All-map :
      (P : B → Type 0) (f : A → B) → ((a : A) → P (f a)) → (xs : List A) → All P (map f xs)
  All-map P f h [] = tt
  All-map P f h (x ∷ xs) = (h x, All-map P f h xs)

module _ {A : Type 0} (P : A → Type 0) (before : A → A → Bool) where
  All-place : (x : A) (ys : List A) → P x → All P ys → All P (place before x ys)
  All-place x [] h k = (h, tt)
  All-place x (y ∷ ys) h k = elim (Bool-cases (before y x)) [
    | inl e ↦ rw e (k.0, All-place x ys h k.1)
    | inr e ↦ rw e (h, k)
  ]

  pub All-sort : (xs : List A) → All P xs → All P (sort before xs)
  All-sort [] h = tt
  All-sort (x ∷ xs) h = All-place x (sort before xs) h.0 (All-sort xs h.1)

count_priced_le :
    (cost_of : String → Option Decimal) (ingredients : List RecipeIngredient)
    → count_priced cost_of ingredients ≤ length ingredients
count_priced_le cost_of [] = omega arith
count_priced_le cost_of (ing ∷ rest) = ground (arith, count_priced_le cost_of rest)

-- A green row shows the cost that the margins take for the SKU, no other row shows one, and no
-- more ingredients have a cost than there are.
abbrev pub IsHonest : RecipeCatalog → CostBook → SkuCoverageRow → Type 0
IsHonest catalog cost row =
    (row.health ≡ green
      → ((unit : Decimal) × (row.unit_price ≡ some unit)
          × (resolve catalog cost (enough catalog cost) row.sku_id [] ≡ some unit)))
    × (row.health ≢ green → row.unit_price ≡ none)
    × (row.priced_ingredient_count ≤ row.ingredient_count)

or_worse-green :
    (worse : SkuHealth) (unit : Option Decimal)
    → worse ≢ green
    → or_worse worse unit ≡ green
    → (u : Decimal) × (unit ≡ some u)
or_worse-green worse none h e = absurd (h e)
or_worse-green worse (some u) h e = (u, refl)

made_green :
    (ingredients : List RecipeIngredient) (unit : Option Decimal)
    → (elim ingredients as (λ _. SkuHealth) [ [] ↦ red | _ ∷ _ ↦ or_worse yellow unit ]) ≡ green
    → (u : Decimal) × (unit ≡ some u)
made_green [] unit h = absurd (cc)
made_green (_ ∷ _) unit h = or_worse-green yellow unit (λ e. absurd (cc)) h

-- What is green has a cost.
health_at-green :
    (recipe : Option Recipe) (classification : SkuClassification) (unit : Option Decimal)
    → health_at recipe classification unit ≡ green
    → (u : Decimal) × (unit ≡ some u)
health_at-green recipe dangling unit h = absurd (cc)
health_at-green none active unit h = or_worse-green red unit (λ e. absurd (cc)) h
health_at-green none prep_internal unit h = or_worse-green red unit (λ e. absurd (cc)) h
health_at-green (some recipe) active unit h = made_green recipe.ingredients unit h
health_at-green (some recipe) prep_internal unit h = made_green recipe.ingredients unit h

shown_at-green :
    (health : SkuHealth) (unit : Option Decimal)
    → (health ≡ green → shown_at health unit ≡ unit)
      × (health ≢ green → shown_at health unit ≡ none)
shown_at-green green unit = (λ _. refl, λ h. absurd (h refl))
shown_at-green yellow unit = (λ e. absurd (cc), λ _. refl)
shown_at-green red unit = (λ e. absurd (cc), λ _. refl)

module _ (catalog : RecipeCatalog) (cost : CostBook) where
  fresh_row-IsHonest :
      (recipes : List Recipe) (mappings : List SkuMapping) (sku : SkuRecord)
      → IsHonest catalog cost (fresh_row catalog cost recipes mappings sku)
  fresh_row-IsHonest recipes mappings sku =
      let recipe = lookup sku.sku_id (recipes_by_sku recipes) in
      let classification = classify_sku sku.sku_id recipes mappings in
      let unit = resolve catalog cost (enough catalog cost) sku.sku_id [] in
      let (shown, hidden) = shown_at-green (health_at recipe classification unit) unit in
      (
        (λ h. let (u, e) = health_at-green recipe classification unit h in (u, shown h ∙ e, e)),
        hidden,
        count_priced_le (λ s. resolve catalog cost (enough catalog cost) s [])
            (ingredients_of recipe),
      )

-- Every green row shows the cost that the margins take for its SKU, no other row shows a cost, and
-- no row has more ingredients with a cost than it has ingredients.
pub build_sku_coverage-IsHonest :
    (skus : List SkuRecord) (recipes : List Recipe) (mappings : List SkuMapping) (cost : CostBook)
    → All
        (IsHonest (new_catalog recipes mappings) cost)
        (build_sku_coverage skus recipes mappings cost)
build_sku_coverage-IsHonest skus recipes mappings cost =
    subst (All (IsHonest (new_catalog recipes mappings) cost))
      (sym (build_sku_coverage_lem skus recipes mappings cost))
      (All-map (IsHonest (new_catalog recipes mappings) cost)
        (fresh_row (new_catalog recipes mappings) cost recipes mappings)
        (fresh_row-IsHonest (new_catalog recipes mappings) cost recipes mappings)
        (sort (λ a b. str_before a.sku_id b.sku_id) skus))
