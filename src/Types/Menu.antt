-- ===== src/Types/Menu.antt =====
-- types.py: segments, recipes, mappings and sales.
use accounting_tool.Prelude.{String, Bool, List, Option}
use accounting_tool.Prelude.Int.{ℤ}
use accounting_tool.Decimal.{Decimal, Money}
use accounting_tool.Calendar.{Date}

pub data Segment : Type 0 where
  cafe bar : Segment

pub record RecipeIngredient : Type 0 where
  pub sku_id : String
  pub quantity : Decimal

pub record Recipe : Type 0 where
  pub sku_id : String
  pub name : String
  pub segment : Segment
  pub ingredients : List RecipeIngredient
  pub yield_qty : Decimal
  pub yield_estimated : Bool
  pub target_gross_margin_pct : Option Decimal
  pub prep : Bool

pub record SkuMapping : Type 0 where
  pub item_id : String
  pub sku_id : String

-- A quantity is a Python int, and a refund's is negative.
pub record Sale : Type 0 where
  pub item_id : String
  pub timestamp : Date
  pub sell_price : Money
  pub quantity : ℤ
  pub segment : Option Segment

pub record Sku : Type 0 where
  pub sku_id : String
  pub name : String
  pub unit : String
