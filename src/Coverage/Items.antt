-- ===== src/Coverage/Items.antt =====
-- coverage.py: an item of the menu shows what the row of its SKU shows.
use accounting_tool.Margin.Resolver.{resolve, enough}
use accounting_tool.Decimal.{Money, minus}
use accounting_tool.Cost.{CostBook}
use accounting_tool.Types.{SkuMapping, SkuRecord, Recipe, ItemCoverageRow, SkuCoverageRow, green}
use accounting_tool.Coverage.{build_sku_coverage}
use accounting_tool.Recipes.{RecipeCatalog, new_catalog}
use accounting_tool.Loyverse.Store.{MenuDict, MenuItem}
use accounting_tool.Prelude.{
  List, String, any, Option, ◌≡◌, In, [], some, none, ◌≢◌, ◌⊎◌, string_eq, ◌=?◌, if◌then◌else◌, ◌∷◌,
  false,
}

-- The SKU of the last mapping that names the item.
abbrev pub last_mapping : String → List SkuMapping → Option String
last_mapping item_id [] = none
last_mapping item_id (m ∷ mappings) = elim (last_mapping item_id mappings) [
  | some sku_id ↦ some sku_id
  | none ↦ if item_id =? m.item_id then some m.sku_id else none
]

-- The SKU that an item is sold as: that of the last mapping that names the item, or else the item's
-- own id where a recipe has it.
abbrev pub sold_as : String → List SkuMapping → List Recipe → Option String
sold_as item_id mappings recipes = elim (last_mapping item_id mappings) [
  | some sku_id ↦ some sku_id
  | none ↦ if any (λ r. item_id =? r.sku_id) recipes then some item_id else none
]

-- An item without a row of its SKU: it has no SKU, or one that is blank or not in the list.
abbrev pub IsUnjoined : List SkuRecord → ItemCoverageRow → Type 0
IsUnjoined skus row =
    (row.sku_health ≡ none)
    × (row.unit_price ≡ none)
    × (row.gross_margin ≡ none)
    × ((s : String) → row.mapped_sku_id ≡ some s → s ≢ "" → any (λ k. s =? k.sku_id) skus ≡ false)

-- An item with a row of its SKU: it shows that row's health and cost. The cost is there exactly when
-- the row is green, is the one that the margins take for the SKU, and comes off the price.
abbrev pub IsJoined : RecipeCatalog → CostBook → List SkuCoverageRow → ItemCoverageRow → Type 0
IsJoined catalog cost rows row =
    (r : SkuCoverageRow) × In r rows
    × (row.mapped_sku_id ≡ some r.sku_id)
    × (row.sku_health ≡ some r.health)
    × (row.unit_price ≡ r.unit_price)
    × (r.health ≡ green
        → ((unit : Money) × (row.unit_price ≡ some unit)
            × (resolve catalog cost (enough catalog cost) r.sku_id [] ≡ some unit)
            × (row.gross_margin ≡ some (minus row.sell_price unit))))
    × (r.health ≢ green → (row.unit_price ≡ none) × (row.gross_margin ≡ none))

module _ (menu : MenuDict) (skus : List SkuRecord) (recipes : List Recipe)
    (mappings : List SkuMapping) (cost : CostBook) where
  abbrev pub IsMargined : ItemCoverageRow → Type 0
  IsMargined row =
      ((item : MenuItem) × In (row.item_id, item) menu
        × (row.name ≡ item.name)
        × (row.sell_price ≡ item.sell_price))
      × (row.mapped_sku_id ≡ sold_as row.item_id mappings recipes)
      × (IsUnjoined skus row
          ⊎ IsJoined (new_catalog recipes mappings) cost
              (build_sku_coverage skus recipes mappings cost) row)
