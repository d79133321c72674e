-- ===== src/Recipes.antt =====
-- recipes.py: the catalog that resolves a sold item to its recipe, and the search for a recipe that
-- contains itself.
pub mod Loops
pub mod Termination
pub mod Edges
pub mod Decides
mod Tests
use accounting_tool.Prelude.Dict.{lookup, insert_all, get_or, insert}
use accounting_tool.Types.{Recipe, SkuMapping}
use accounting_tool.Prelude.{
  String, List, Option, map, [], string_eq, Bool, ◌*◌, ◌∷◌, ℕ, suc, if◌then◌else◌, length, any,
  ◌++◌, ◌=?◌, ◌+◌, zero,
}

pub record RecipeCatalog : Type 0 where
  pub by_sku : List (String × Recipe)
  pub item_to_sku : List (String × String)

unfoldable pub new_catalog : List Recipe → List SkuMapping → RecipeCatalog
new_catalog recipes mappings = record {
  by_sku = insert_all (map (λ (r : Recipe). (r.sku_id, r)) recipes) [];
  item_to_sku = insert_all (map (λ (m : SkuMapping). (m.item_id, m.sku_id)) mappings) [];
}

unfoldable pub sku_for_item : RecipeCatalog → String → Option String
sku_for_item c item_id = lookup item_id c.item_to_sku

unfoldable pub recipe_for_sku : RecipeCatalog → String → Option Recipe
recipe_for_sku c sku_id = lookup sku_id c.by_sku

-- An item without a mapping stands for the SKU of its own id.
unfoldable pub for_item : RecipeCatalog → String → Option Recipe
for_item c item_id = lookup (get_or item_id item_id c.item_to_sku) c.by_sku

unfoldable pub all_recipes : RecipeCatalog → List Recipe
all_recipes c = map (λ p. p.1) c.by_sku

unfoldable pub all_mappings : RecipeCatalog → List SkuMapping
all_mappings c = map (λ p. record { item_id = p.0; sku_id = p.1 }) c.item_to_sku

-- The search returns a loop, or none, or is cut off: `find_recipe_cycle` gives fuel enough that the
-- last never happens.
pub data Search : Type 0 where
  out_of_fuel no_cycle : Search
  cycle : List String → Search

-- The SKUs that each SKU is made of, the recipe that is being saved included.
abbrev pub ingredient_skus : Recipe → List String
ingredient_skus r = map (λ i. i.sku_id) r.ingredients

unfoldable pub recipe_edges : List Recipe → String → List String → List (String × List String)
recipe_edges recipes sku_id ingredient_sku_ids =
    insert sku_id ingredient_sku_ids
      (insert_all (map (λ (r : Recipe). (r.sku_id, ingredient_skus r)) recipes) [])

-- `nxt in path`
abbrev pub on_path : String → List String → Bool
on_path nxt path = any (λ n. nxt =? n) path

-- What a visit found, or else what the rest of the loop finds.
abbrev pub or_later : Search → Search → Search
or_later out_of_fuel later = out_of_fuel
or_later no_cycle later = later
or_later (cycle loop) later = cycle loop

-- The loop of `walk` over the edges of a node, with the recursive call as `visit`.
unfoldable pub try_edges : String → String → List String → (String → Search) → List String → Search
try_edges sku_id node path visit [] = no_cycle
try_edges sku_id node path visit (nxt ∷ rest) =
    let later = try_edges sku_id node path visit rest in
    if nxt =? sku_id
    then cycle (path ++ (node ∷ sku_id ∷ []))
    else if on_path nxt path
    then later
    else or_later (visit nxt) later

unfoldable pub walk : List (String × List String) → String → ℕ → String → List String → Search
unfolding try_edges
walk edges sku_id zero node path = out_of_fuel
walk edges sku_id (suc fuel) node path =
    try_edges sku_id node path (λ nxt. walk edges sku_id fuel nxt (path ++ (node ∷ [])))
      (get_or node [] edges)

unfoldable pub find_recipe_cycle : List Recipe → String → List String → Search
unfolding walk recipe_edges
find_recipe_cycle recipes sku_id ingredient_sku_ids =
    let edges = recipe_edges recipes sku_id ingredient_sku_ids in
    walk edges sku_id (2 * length edges + 1) sku_id []
