-- ===== src/KegInventory/Tests.antt =====
-- The theorems about keg_inventory.py at two brands.
use accounting_tool.KegInventory.Laws.{is_started, compute_keg_inventory-partition}
use mathlib.Core.List.{Perm}
use accounting_tool.Cost.{cost_per_unit}
use accounting_tool.Types.{KegInventoryReport, KegBrand, KegWeighIn, tolerance_note}
use accounting_tool.Calendar.{Date, before}
use accounting_tool.Decimal.{
  arithmetic, num_digits, whole, zero_money, half_even, fraction, times, Decimal, minus, quotient,
  plus,
}
use accounting_tool.KegInventory.{
  beer_volume_ml, rung_up_pours_ml, loss_pct, group_weighs, brand_weighs, keg_row, add_brand,
  keg_rows, compute_keg_inventory,
}
use accounting_tool.Recipes.{RecipeCatalog, for_item}
use accounting_tool.Prelude.{ℕ, List, String, ◌≡◌, [], ◌∷◌, some, refl, map, keep, not}

abbrev day : ℕ → Date
day d = record { year = 2026; month = 5; day = d }

abbrev brand : String → KegBrand
brand brand_id = record {
  brand_id = brand_id;
  name = brand_id;
  beer_sku_id = "beer";
  tare_weight_g = whole 10000;
  density_g_per_ml = fraction 10 1;
}

abbrev weigh : String → ℕ → ℕ → KegWeighIn
weigh brand_id d grams = record {
  brand_id = brand_id;
  weighed_on = day d;
  gross_weight_g = whole grams;
}

abbrev weigh_ins : List KegWeighIn
weigh_ins = weigh "chang" 8 30000 ∷ weigh "leo" 8 20000 ∷ weigh "chang" 1 50000 ∷ []

abbrev catalog : RecipeCatalog
catalog = record { by_sku = []; item_to_sku = [] }

abbrev brands : List KegBrand
brands = brand "leo" ∷ brand "chang" ∷ []

program : Unit {0}
unfolding arithmetic num_digits half_even beer_volume_ml rung_up_pours_ml loss_pct group_weighs
    brand_weighs keg_row add_brand keg_rows compute_keg_inventory cost_per_unit for_item before
program = tt

volume : ℕ → Decimal
volume grams = quotient (minus (whole grams) (whole 10000)) (fraction 10 1)

consumed : Decimal
consumed = minus (volume 50000) (volume 30000)

report : KegInventoryReport
report = record {
  period_start = day 1;
  period_end = day 8;
  rows =
      record {
        brand_id = "chang";
        name = "chang";
        beginning_weighed_on = day 1;
        ending_weighed_on = day 8;
        beginning_volume_ml = volume 50000;
        ending_volume_ml = volume 30000;
        volume_consumed_ml = consumed;
        rung_up_pours_ml = zero_money;
        accrual_cogs = times consumed zero_money;
        theoretical_yield_ml = consumed;
        loss_pct = some (minus (whole 1) (quotient zero_money consumed));
        density_g_per_ml = fraction 10 1;
        density_tolerance_note = tolerance_note;
      }
      ∷ [];
  unstarted_brand_ids = "leo" ∷ [];
  total_accrual_cogs = plus zero_money (times consumed zero_money);
}

volumes : beer_volume_ml (brand "leo") (weigh "leo" 8 10000) ≡ some zero_money
unfolding program
volumes = refl

reports : compute_keg_inventory [] catalog [] brands weigh_ins (day 8) ≡ some report
unfolding program report volume consumed
reports = refl

compute_keg_inventory-partition_example :
    Perm
      (map (λ r. r.brand_id) report.rows)
      (map (λ b. b.brand_id) (keep (is_started weigh_ins (day 8)) brands))
    × Perm report.unstarted_brand_ids
        (map (λ b. b.brand_id) (keep (λ b. not (is_started weigh_ins (day 8) b)) brands))
compute_keg_inventory-partition_example =
    compute_keg_inventory-partition [] catalog [] weigh_ins (day 8) brands report reports
