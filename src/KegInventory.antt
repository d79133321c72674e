-- ===== src/KegInventory.antt =====
-- keg_inventory.py: beer volumes from weekly weighing, and their cost.
pub mod Laws
mod Tests
use accounting_tool.Prelude.Text.{str_before}
use accounting_tool.Prelude.Dict.{insert, get_or}
use accounting_tool.Prelude.Sort.{sort}
use accounting_tool.Cost.{CostBook, cost_per_unit}
use accounting_tool.Calendar.{Date, before, not_after}
use accounting_tool.Prelude.Int.{ℤ}
use accounting_tool.Decimal.{
  Decimal, minus, at_most, same, zero_money, whole, divide, quotient, plus, times, total, of_int,
}
use accounting_tool.Types.{
  KegWeighIn, KegBrand, Sale, RecipeIngredient, KegInventoryRow, KegInventoryReport, tolerance_note,
}
use accounting_tool.Recipes.{RecipeCatalog, for_item}
use accounting_tool.Prelude.{
  ◌>>=◌, Option, List, String, if◌then◌else◌, none, Bool, some, ◌∷◌, ◌=?◌, [], keep, ◌++◌, map,
  string_eq,
}

-- The volume in ml; a density of zero raises.
unfoldable pub beer_volume_ml : KegBrand → KegWeighIn → Option Decimal
beer_volume_ml brand weigh =
    let net_g = minus weigh.gross_weight_g brand.tare_weight_g in
    if at_most net_g zero_money then some zero_money else divide net_g brand.density_g_per_ml

unfoldable pub add_pours : KegBrand → ℤ → Decimal → List RecipeIngredient → Decimal
add_pours brand sold acc [] = acc
add_pours brand sold acc (ing ∷ ings) =
    add_pours brand sold
      (if ing.sku_id =? brand.beer_sku_id then plus acc (times ing.quantity (of_int sold)) else acc)
      ings

unfoldable pub add_sales_pours : RecipeCatalog → KegBrand → Decimal → List Sale → Decimal
add_sales_pours recipes brand acc [] = acc
add_sales_pours recipes brand acc (sale ∷ sales) =
    add_sales_pours recipes brand
      (elim (for_item recipes sale.item_id) [
        | none ↦ acc
        | some recipe ↦ add_pours brand sale.quantity acc recipe.ingredients
      ])
      sales

unfoldable pub rung_up_pours_ml : List Sale → RecipeCatalog → KegBrand → Decimal
unfolding add_sales_pours add_pours
rung_up_pours_ml sales recipes brand = add_sales_pours recipes brand zero_money sales

unfoldable pub loss_pct : Decimal → Decimal → Option Decimal
loss_pct rung_up_ml consumed_ml =
    if same consumed_ml zero_money
    then none
    else some (minus (whole 1) (quotient rung_up_ml consumed_ml))

-- `by_brand.setdefault(w.brand_id, []).append(w)`
unfoldable pub group_weighs :
    List KegWeighIn → List (String × List KegWeighIn) → List (String × List KegWeighIn)
group_weighs [] by_brand = by_brand
group_weighs (w ∷ weighs) by_brand =
    group_weighs weighs (insert w.brand_id (get_or w.brand_id [] by_brand ++ (w ∷ [])) by_brand)

abbrev pub earlier_weigh : KegWeighIn → KegWeighIn → Bool
earlier_weigh a b = before a.weighed_on b.weighed_on

unfoldable pub brand_weighs : List (String × List KegWeighIn) → Date → String → List KegWeighIn
brand_weighs by_brand period_end brand_id =
    sort earlier_weigh (keep (λ w. not_after w.weighed_on period_end) (get_or brand_id [] by_brand))

-- The last two of a list, `l[-2]` and `l[-1]`.
abbrev pub last_two {ℓ} : {A : Type ℓ} → List A → Option (A × A)
last_two [] = none
last_two (x ∷ []) = none
last_two (x ∷ y ∷ []) = some (x, y)
last_two (x ∷ y ∷ z ∷ l) = last_two (y ∷ z ∷ l)

abbrev pub earliest : Date → List KegInventoryRow → Date
earliest d [] = d
earliest d (r ∷ rows) =
    earliest (if before r.beginning_weighed_on d then r.beginning_weighed_on else d) rows

-- `min(..., default=period_end)`
abbrev pub period_start : Date → List KegInventoryRow → Date
period_start period_end [] = period_end
period_start period_end (r ∷ rows) = earliest r.beginning_weighed_on rows

abbrev pub Rows : Type 0
Rows = List KegInventoryRow × List String

module _ (sales : List Sale) (recipes : RecipeCatalog) (cost : CostBook) where
  -- The row of a brand that was weighed twice.
  unfoldable pub keg_row : KegBrand → KegWeighIn → KegWeighIn → Option KegInventoryRow
  keg_row brand beginning ending = do
    beginning_vol ← beer_volume_ml brand beginning
    ending_vol ← beer_volume_ml brand ending
    let consumed = minus beginning_vol ending_vol
    let rung_up = rung_up_pours_ml sales recipes brand
    let per_ml = cost_per_unit cost brand.beer_sku_id
    some (record {
      brand_id = brand.brand_id;
      name = brand.name;
      beginning_weighed_on = beginning.weighed_on;
      ending_weighed_on = ending.weighed_on;
      beginning_volume_ml = beginning_vol;
      ending_volume_ml = ending_vol;
      volume_consumed_ml = consumed;
      rung_up_pours_ml = rung_up;
      accrual_cogs = times consumed per_ml;
      theoretical_yield_ml = consumed;
      loss_pct = loss_pct rung_up consumed;
      density_g_per_ml = brand.density_g_per_ml;
      density_tolerance_note = tolerance_note;
    })

  -- The body of the loop over the brands, before what the later ones give.
  unfoldable pub add_brand : KegBrand → Option (KegWeighIn × KegWeighIn) → Option Rows → Option Rows
  add_brand brand none later = do (rows, unstarted) ← later; some (rows, brand.brand_id ∷ unstarted)
  add_brand brand (some (beginning, ending)) later = do
    row ← keg_row brand beginning ending
    (rows, unstarted) ← later
    some (row ∷ rows, unstarted)

  -- The rows, and the brands that were weighed less than twice.
  unfoldable pub keg_rows : List (String × List KegWeighIn) → Date → List KegBrand → Option Rows
  keg_rows by_brand period_end [] = some ([], [])
  keg_rows by_brand period_end (brand ∷ brands) =
      add_brand brand (last_two (brand_weighs by_brand period_end brand.brand_id))
        (keg_rows by_brand period_end brands)

  unfoldable pub compute_keg_inventory :
      List KegBrand → List KegWeighIn → Date → Option KegInventoryReport
  compute_keg_inventory brands weigh_ins period_end = do
    (rows, unstarted) ← keg_rows (group_weighs weigh_ins []) period_end brands
    let sorted_rows = sort (λ a b. str_before a.brand_id b.brand_id) rows
    some (record {
      period_start = period_start period_end sorted_rows;
      period_end = period_end;
      rows = sorted_rows;
      unstarted_brand_ids = sort str_before unstarted;
      total_accrual_cogs = total (map (λ r. r.accrual_cogs) sorted_rows);
    })
