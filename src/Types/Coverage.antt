-- ===== src/Types/Coverage.antt =====
-- types.py: how far the menu is mapped and priced, and what a cost is made of.
use accounting_tool.Types.Menu.{Segment}
use accounting_tool.Decimal.{Money, Decimal}
use accounting_tool.Prelude.{ℕ, String, Option, List, Bool}

pub record SkuRecord : Type 0 where
  pub sku_id : String
  pub name : String
  pub segment : Option Segment
  pub unit : Option String

pub data SkuClassification : Type 0 where
  active prep_internal dangling : SkuClassification

pub data SkuRole : Type 0 where
  purchasable produced prep_role : SkuRole

pub data SkuHealth : Type 0 where
  green yellow red : SkuHealth

pub record SkuCoverageRow : Type 0 where
  pub sku_id : String
  pub name : String
  pub segment : Option Segment
  pub unit : Option String
  pub classification : SkuClassification
  pub role : SkuRole
  pub health : SkuHealth
  pub mapped_item_count : ℕ
  pub has_recipe : Bool
  pub ingredient_count : ℕ
  pub priced_ingredient_count : ℕ
  pub unit_price : Option Money

pub record CostBreakdownLine : Type 0 where
  pub sku_id : String
  pub name : String
  pub quantity : Decimal
  pub unit_price : Option Money
  pub line_cost : Option Money

pub record CostBreakdown : Type 0 where
  pub sku_id : String
  pub per_unit : Option Money
  pub yield_qty : Decimal
  pub lines : List CostBreakdownLine
  pub unpriced : List String

pub record ItemCoverageRow : Type 0 where
  pub item_id : String
  pub name : String
  pub sell_price : Money
  pub mapped_sku_id : Option String
  pub sku_health : Option SkuHealth
  pub unit_price : Option Money
  pub gross_margin : Option Money
  pub margin_pct : Option Decimal
