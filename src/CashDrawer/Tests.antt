-- ===== src/CashDrawer/Tests.antt =====
-- The theorems about cash_drawer.py at a day with two shifts.
use accounting_tool.Decimal.Value.{Same}
use accounting_tool.CashDrawer.Laws.{thread_shifts, ShiftEntry, thread_shifts-balance}
use accounting_tool.Types.{HandoffRecount, ShiftClose}
use accounting_tool.Decimal.{arithmetic, fraction, whole, plus, total}
use accounting_tool.Calendar.{DateTime}
use accounting_tool.CashDrawer.{check_handoff, close_shift}
use accounting_tool.Prelude.{ℕ, ◌∷◌, ◌≡◌, false, [], true, refl, map}

abbrev at_hour : ℕ → DateTime
at_hour h = record {
  date = record { year = 2026; month = 5; day = 1 };
  hour = h;
  minute = 0;
  micros = 0;
}

abbrev shift : ℕ → ℕ → ShiftEntry
shift closing rung = record {
  shift_id = "s";
  cashier_id = "c";
  closed_at = at_hour 17;
  closing_cash = fraction closing 2;
  rung_up_cash = whole rung;
}

abbrev outgoing : ShiftClose
unfolding close_shift
outgoing = close_shift "s" "c" (at_hour 17) (whole 1000) (whole 3000) (whole 2050)

abbrev recount : ℕ → HandoffRecount
recount cents = record {
  outgoing_shift_id = "s";
  incoming_cashier_id = "d";
  recounted_at = at_hour 17;
  recounted_cash = fraction cents 2;
}

handoff_boundary :
    ((check_handoff outgoing (recount 299900) (whole 1)).is_blocked ≡ false)
    × ((check_handoff outgoing (recount 299899) (whole 1)).is_blocked ≡ true)
unfolding arithmetic check_handoff close_shift
handoff_boundary = (refl, refl)

thread_shifts-balance_example :
    let closes = thread_shifts (whole 1000) (shift 299950 2000 ∷ shift 350000 500 ∷ []) in
    Same
      (plus
        (whole 1000)
        (plus (total (map (λ c. c.rung_up_cash) closes)) (total (map (λ c. c.variance) closes))))
      (fraction 350000 2)
thread_shifts-balance_example =
    thread_shifts-balance (whole 1000) (shift 299950 2000 ∷ shift 350000 500 ∷ [])
