-- ===== src/Coverage.antt =====
-- coverage.py: the health of each SKU and of each item on the menu.
pub mod Laws
pub mod Honest
pub mod Items
mod Tests
use accounting_tool.Prelude.Text.{str_before}
use accounting_tool.Prelude.Sort.{sort}
use accounting_tool.Margin.Resolver.{unit_cost, Memo}
use accounting_tool.Cost.{CostBook}
use accounting_tool.Prelude.Dict.{lookup, insert_all, get_or, insert}
use accounting_tool.Loyverse.Store.{MenuDict, MenuItem}
use accounting_tool.Margin.{gross_margin_pct}
use accounting_tool.Recipes.{RecipeCatalog, new_catalog}
use accounting_tool.Types.{
  SkuHealth, SkuRole, SkuRecord, SkuMapping, ItemCoverageRow, Recipe, SkuCoverageRow, green,
  purchasable, RecipeIngredient, SkuClassification, red, prep_role, active, produced, yellow,
  prep_internal, dangling,
}
use accounting_tool.Decimal.{Money, minus, Decimal}
use accounting_tool.Prelude.{
  ℕ, List, Option, String, Bool, some, keep, false, none, [], if◌then◌else◌, any, ltb, ◌∷◌, ◌=?◌,
  string_eq, suc, map, ◌||◌, true, ◌==◌, ◌+◌, length, ◌&&◌,
}

-- `{r.sku_id: r for r in recipes}`
abbrev pub recipes_by_sku : List Recipe → List (String × Recipe)
recipes_by_sku recipes = insert_all (map (λ r. (r.sku_id, r)) recipes) []

unfoldable pub sku_role : Option Recipe → SkuRole
sku_role none = purchasable
sku_role (some recipe) = if recipe.prep then prep_role else produced

abbrev pub is_pickable : SkuRole → Bool
is_pickable produced = false
is_pickable _ = true

unfoldable pub pickable_ingredient_skus : List SkuRecord → List Recipe → List SkuRecord
unfolding sku_role
pickable_ingredient_skus skus recipes =
    keep (λ sku. is_pickable (sku_role (lookup sku.sku_id (recipes_by_sku recipes)))) skus

abbrev pub is_used : String → List Recipe → Bool
is_used sku_id recipes =
    any (λ recipe. any (λ ing. ing.sku_id =? sku_id) recipe.ingredients) recipes

unfoldable pub classify_sku : String → List Recipe → List SkuMapping → SkuClassification
classify_sku sku_id recipes mappings =
    if any (λ m. m.sku_id =? sku_id) mappings
    then active
    else if is_used sku_id recipes
    then prep_internal
    else dangling

abbrev pub or_worse : SkuHealth → Option Decimal → SkuHealth
or_worse worse none = worse
or_worse worse (some _) = green

-- `mapped_counts`
abbrev pub count_mappings : List SkuMapping → List (String × ℕ) → List (String × ℕ)
count_mappings [] counts = counts
count_mappings (m ∷ mappings) counts =
    count_mappings mappings (insert m.sku_id (get_or m.sku_id 0 counts + 1) counts)

abbrev pub ingredients_of : Option Recipe → List RecipeIngredient
ingredients_of none = []
ingredients_of (some recipe) = recipe.ingredients

abbrev pub is_made : Option Recipe → Bool
is_made none = false
is_made (some _) = true

module _ (catalog : RecipeCatalog) (cost : CostBook) where
  unfoldable pub sku_health : Memo → String → Option Recipe → SkuClassification → SkuHealth × Memo
  unfolding unit_cost
  sku_health memo sku_id recipe dangling = (red, memo)
  sku_health memo sku_id none classification =
      let (unit, after) = unit_cost catalog cost memo sku_id in (or_worse red unit, after)
  sku_health memo sku_id (some recipe) classification = elim recipe.ingredients [
    | [] ↦ (red, memo)
    | _ ∷ _ ↦
        let (unit, after) = unit_cost catalog cost memo sku_id in (or_worse yellow unit, after)
  ]

  -- The count of the ingredients that have a cost.
  unfoldable pub priced_count : Memo → List RecipeIngredient → ℕ × Memo
  unfolding unit_cost
  priced_count memo [] = (0, memo)
  priced_count memo (ing ∷ rest) =
      let (unit, after) = unit_cost catalog cost memo ing.sku_id in
      let later = priced_count after rest in
      (elim unit [ none ↦ later.0 | some _ ↦ suc later.0 ], later.1)

  -- `_derived_cost_per_unit`
  unfoldable pub derived_cost_per_unit : Memo → String → SkuHealth → Option Money × Memo
  unfolding unit_cost
  derived_cost_per_unit memo sku_id green = unit_cost catalog cost memo sku_id
  derived_cost_per_unit memo sku_id _ = (none, memo)

  -- A row, from what the resolver has said of it.
  abbrev pub coverage_row :
      List (String × ℕ)
      → SkuRecord
      → Option Recipe
      → SkuClassification
      → SkuHealth
      → ℕ
      → Option Money
      → SkuCoverageRow
  coverage_row counts sku recipe classification health priced unit = record {
    sku_id = sku.sku_id;
    name = sku.name;
    segment = sku.segment;
    unit = sku.unit;
    classification = classification;
    role = sku_role recipe;
    health = health;
    mapped_item_count = get_or sku.sku_id 0 counts;
    has_recipe = is_made recipe;
    ingredient_count = length (ingredients_of recipe);
    priced_ingredient_count = priced;
    unit_price = unit;
  }

  -- The body of the loop over the SKUs.
  unfoldable pub cover_sku :
      List Recipe → List SkuMapping → Memo → SkuRecord → SkuCoverageRow × Memo
  unfolding sku_health priced_count derived_cost_per_unit classify_sku sku_role
  cover_sku recipes mappings memo sku =
      let recipe = lookup sku.sku_id (recipes_by_sku recipes) in
      let classification = classify_sku sku.sku_id recipes mappings in
      let h = sku_health memo sku.sku_id recipe classification in
      let p = priced_count h.1 (ingredients_of recipe) in
      let c = derived_cost_per_unit p.1 sku.sku_id h.0 in
      (coverage_row (count_mappings mappings []) sku recipe classification h.0 p.0 c.0, c.1)

  unfoldable pub cover_skus :
      List Recipe → List SkuMapping → Memo → List SkuRecord → List SkuCoverageRow
  unfolding cover_sku
  cover_skus recipes mappings memo [] = []
  cover_skus recipes mappings memo (sku ∷ skus) =
      let made = cover_sku recipes mappings memo sku in
      made.0 ∷ cover_skus recipes mappings made.1 skus

unfoldable pub build_sku_coverage :
    List SkuRecord → List Recipe → List SkuMapping → CostBook → List SkuCoverageRow
unfolding cover_skus new_catalog
build_sku_coverage skus recipes mappings cost =
    cover_skus (new_catalog recipes mappings) cost recipes mappings []
      (sort (λ a b. str_before a.sku_id b.sku_id) skus)

-- `_resolve_mapped_sku_id`
unfoldable pub resolve_mapped_sku_id : String → List (String × String) → List String → Option String
resolve_mapped_sku_id item_id mapping_by_item recipe_sku_ids =
    elim (lookup item_id mapping_by_item) [
      | some sku_id ↦ some sku_id
      | none ↦ if any (λ s. item_id =? s) recipe_sku_ids then some item_id else none
    ]

-- The row of the SKU, if any: an empty id has none.
abbrev pub row_for : Option String → List (String × SkuCoverageRow) → Option SkuCoverageRow
row_for none rows = none
row_for (some sku_id) rows = if sku_id =? "" then none else lookup sku_id rows

abbrev pub cost_in : Option SkuCoverageRow → Option Money
cost_in none = none
cost_in (some row) = row.unit_price

abbrev pub health_in : Option SkuCoverageRow → Option SkuHealth
health_in none = none
health_in (some row) = some row.health

abbrev pub margin_on : Money → Option Money → Option Money
margin_on sell_price none = none
margin_on sell_price (some cost_per_unit) = some (minus sell_price cost_per_unit)

abbrev pub pct_on : Money → Option Money → Option Decimal
pct_on sell_price none = none
pct_on sell_price (some margin) = gross_margin_pct margin sell_price

unfoldable pub item_row_for :
    String → MenuItem → Option String → Option SkuCoverageRow → ItemCoverageRow
unfolding gross_margin_pct minus
item_row_for item_id item mapped_sku_id sku_row =
    let margin = margin_on item.sell_price (cost_in sku_row) in
    record {
      item_id = item_id;
      name = item.name;
      sell_price = item.sell_price;
      mapped_sku_id = mapped_sku_id;
      sku_health = health_in sku_row;
      unit_price = cost_in sku_row;
      gross_margin = margin;
      margin_pct = pct_on item.sell_price margin;
    }

-- `_ITEM_SORT_ORDER`
abbrev pub item_sort_order : Option SkuHealth → ℕ
item_sort_order none = 0
item_sort_order (some red) = 1
item_sort_order (some yellow) = 2
item_sort_order (some green) = 3

-- `str.lower` of Python is `lower`.
abbrev pub worse_first : (String → String) → ItemCoverageRow → ItemCoverageRow → Bool
worse_first lower a b =
    let i = item_sort_order a.sku_health in
    let j = item_sort_order b.sku_health in
    ltb i j || i == j && str_before (lower a.name) (lower b.name)

-- The body of the loop over the menu.
abbrev pub cover_item :
    List Recipe
    → List SkuMapping
    → List (String × SkuCoverageRow)
    → String × MenuItem
    → ItemCoverageRow
unfolding resolve_mapped_sku_id item_row_for
cover_item recipes mappings rows_by_id (item_id, item) =
    let mapping_by_item = insert_all (map (λ m. (m.item_id, m.sku_id)) mappings) [] in
    let mapped = resolve_mapped_sku_id item_id mapping_by_item (map (λ r. r.sku_id) recipes) in
    item_row_for item_id item mapped (row_for mapped rows_by_id)

unfoldable pub build_item_coverage :
    (String → String)
    → MenuDict
    → List SkuRecord
    → List Recipe
    → List SkuMapping
    → CostBook
    → List ItemCoverageRow
unfolding build_sku_coverage
build_item_coverage lower menu skus recipes mappings cost =
    let rows = build_sku_coverage skus recipes mappings cost in
    let rows_by_id = insert_all (map (λ r. (r.sku_id, r)) rows) [] in
    sort (worse_first lower) (map (cover_item recipes mappings rows_by_id) menu)
