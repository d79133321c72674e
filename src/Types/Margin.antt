-- ===== src/Types/Margin.antt =====
-- types.py: the margins of a day.
use accounting_tool.Prelude.Int.{ℤ}
use accounting_tool.Decimal.{Money, less, zero_money, Decimal}
use accounting_tool.Calendar.{Date}
use accounting_tool.Prelude.{String, Bool, List, ◌||◌, Option}
use accounting_tool.Types.Menu.{Segment}

pub record ItemMargin : Type 0 where
  pub item_id : String
  pub name : String
  pub segment : Segment
  pub day : Date
  pub units_sold : ℤ
  pub sell_price : Money
  pub cost_per_unit : Money
  pub revenue : Money
  pub cogs : Money
  pub gross_margin : Money
  pub gross_margin_pct : Option Decimal
  pub unmapped : Bool
  pub unknown_price : Bool
  pub below_target : Bool

abbrev pub excluded_from_totals : ItemMargin → Bool
excluded_from_totals row = row.unmapped || row.unknown_price

pub record SegmentMargin : Type 0 where
  pub segment : Segment
  pub revenue : Money
  pub variable_costs : Money
  pub contribution_margin : Money
  pub flagged_revenue : Money

abbrev pub is_red : SegmentMargin → Bool
is_red m = less m.contribution_margin zero_money

pub record DailyMargin : Type 0 where
  pub day : Date
  pub item_margins : List ItemMargin
  pub total_revenue : Money
  pub total_cogs : Money
  pub total_gross_margin : Money
  pub flagged_revenue : Money
  pub segment_margins : List SegmentMargin
