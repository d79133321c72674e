-- ===== src/Types/Pnl.antt =====
-- types.py: the monthly profit and loss.
use accounting_tool.Prelude.{ℕ, String, List}
use accounting_tool.Decimal.{Decimal, Money, whole}
use accounting_tool.Calendar.{Date, YearMonth}
use accounting_tool.Types.Menu.{Segment}

abbrev pub daily_profit_target_thb : Decimal
daily_profit_target_thb = whole 10000

pub data FixedCostCategory : Type 0 where
  rent utilities staff_salaries insurance other : FixedCostCategory

pub record FixedCost : Type 0 where
  pub amount : Money
  pub category : FixedCostCategory
  pub period : YearMonth

pub record SegmentAccrualPnl : Type 0 where
  pub segment : Segment
  pub revenue : Money
  pub accrual_cogs : Money
  pub contribution_margin : Money

pub record CashFlowEntry : Type 0 where
  pub supplier_id : String
  pub invoice_date : Date
  pub total : Money

pub record CashFlowView : Type 0 where
  pub month : YearMonth
  pub total_payables : Money
  pub entries : List CashFlowEntry

pub record GoalStatus : Type 0 where
  pub target : Money
  pub actual : Money
  pub days_in_month : ℕ

pub record MonthlyPnl : Type 0 where
  pub month : YearMonth
  pub segment_pnl : List SegmentAccrualPnl
  pub fixed_costs : List FixedCost
  pub total_fixed_costs : Money
  pub entity_net_profit : Money
  pub goal : GoalStatus
  pub cash_flow : CashFlowView
