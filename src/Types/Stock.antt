-- ===== src/Types/Stock.antt =====
-- types.py: kegs that are weighed and cafe items that are counted.
use accounting_tool.Prelude.{String, Bool, List, Option}
use accounting_tool.Decimal.{Decimal, Money}
use accounting_tool.Calendar.{Date}

pub record KegBrand : Type 0 where
  pub brand_id : String
  pub name : String
  pub beer_sku_id : String
  pub tare_weight_g : Decimal
  pub density_g_per_ml : Decimal

pub record KegWeighIn : Type 0 where
  pub brand_id : String
  pub weighed_on : Date
  pub gross_weight_g : Decimal

abbrev pub tolerance_note : String
tolerance_note =
    "Volume derived from water-density approximation (1.0 g/ml); documented ~0.5-1.5% volume tolerance per PRD out-of-scope."

pub record KegInventoryRow : Type 0 where
  pub brand_id : String
  pub name : String
  pub beginning_weighed_on : Date
  pub ending_weighed_on : Date
  pub beginning_volume_ml : Decimal
  pub ending_volume_ml : Decimal
  pub volume_consumed_ml : Decimal
  pub rung_up_pours_ml : Decimal
  pub accrual_cogs : Money
  pub theoretical_yield_ml : Decimal
  pub loss_pct : Option Decimal
  pub density_g_per_ml : Decimal
  pub density_tolerance_note : String

pub record KegInventoryReport : Type 0 where
  pub period_start : Date
  pub period_end : Date
  pub rows : List KegInventoryRow
  pub unstarted_brand_ids : List String
  pub total_accrual_cogs : Money

pub data CafeCountCadence : Type 0 where
  daily weekly : CafeCountCadence

pub record CafeItem : Type 0 where
  pub sku_id : String
  pub name : String
  pub unit : String
  pub cadence : CafeCountCadence

pub record CafeStockCount : Type 0 where
  pub sku_id : String
  pub quantity : Decimal
  pub timestamp : Date

pub record CafeConsumedCogs : Type 0 where
  pub sku_id : String
  pub name : String
  pub unit : String
  pub cadence : CafeCountCadence
  pub beginning_quantity : Decimal
  pub purchased_quantity : Decimal
  pub ending_quantity : Decimal
  pub consumed_quantity : Decimal
  pub unit_cost : Money
  pub cogs : Money
  pub unpriced : Bool
