-- ===== src/Types/Drawer.antt =====
-- types.py: closing a shift and handing the drawer over.
use accounting_tool.Prelude.{String, Bool}
use accounting_tool.Decimal.{Money}
use accounting_tool.Calendar.{DateTime}

pub record ShiftClose : Type 0 where
  pub shift_id : String
  pub cashier_id : String
  pub closed_at : DateTime
  pub opening_cash : Money
  pub closing_cash : Money
  pub rung_up_cash : Money
  pub variance : Money

pub record HandoffRecount : Type 0 where
  pub outgoing_shift_id : String
  pub incoming_cashier_id : String
  pub recounted_at : DateTime
  pub recounted_cash : Money

pub record HandoffResult : Type 0 where
  pub outgoing_shift_id : String
  pub reported_closing_cash : Money
  pub recounted_cash : Money
  pub discrepancy : Money
  pub tolerance : Money
  pub is_blocked : Bool
