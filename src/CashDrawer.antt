-- ===== src/CashDrawer.antt =====
-- cash_drawer.py: closing a shift, and the recount when the drawer changes hands.
pub mod Laws
mod Tests
use accounting_tool.Calendar.{DateTime}
use accounting_tool.Decimal.{Money, zero_money, minus, plus, less, absolute}
use accounting_tool.Types.{ShiftClose, HandoffRecount, HandoffResult}
use accounting_tool.Prelude.{ℕ, String}

abbrev pub default_handoff_tolerance : Money
default_handoff_tolerance = zero_money

unfoldable pub drawer_variance : Money → Money → Money → Money
drawer_variance opening_cash closing_cash rung_up_cash =
    minus closing_cash (plus opening_cash rung_up_cash)

unfoldable pub close_shift : String → String → DateTime → Money → Money → Money → ShiftClose
unfolding drawer_variance
close_shift shift_id cashier_id closed_at opening_cash closing_cash rung_up_cash = record {
  shift_id = shift_id;
  cashier_id = cashier_id;
  closed_at = closed_at;
  opening_cash = opening_cash;
  closing_cash = closing_cash;
  rung_up_cash = rung_up_cash;
  variance = drawer_variance opening_cash closing_cash rung_up_cash;
}

unfoldable pub check_handoff : ShiftClose → HandoffRecount → Money → HandoffResult
check_handoff outgoing recount tolerance =
    let discrepancy = minus recount.recounted_cash outgoing.closing_cash in
    record {
      outgoing_shift_id = outgoing.shift_id;
      reported_closing_cash = outgoing.closing_cash;
      recounted_cash = recount.recounted_cash;
      discrepancy = discrepancy;
      tolerance = tolerance;
      is_blocked = less tolerance (absolute discrepancy);
    }
