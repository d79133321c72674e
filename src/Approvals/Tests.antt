-- ===== src/Approvals/Tests.antt =====
-- Decisions on small receipts, and the theorems about approvals.py at them.
use accounting_tool.Receipts.Laws.{Reconciles}
use accounting_tool.Approvals.Laws.{decided-Reconciles, approval-known}
use accounting_tool.Approvals.Decides.{Decides, apply_decision-Decides}
use accounting_tool.Receipts.{
  check_receipt, lines_total, passes_sum_check, price_flags, check_line, effective_sku,
  reference_for, checked_line,
}
use accounting_tool.Prelude.Dict.{lookup}
use accounting_tool.Approvals.{
  apply_decision, ApprovalBook, ApprovalResult, done, price_snapshot, to_purchase, lines_to_store,
  decision_error, record_price, record_line, record_lines,
}
use accounting_tool.Calendar.{Date}
use accounting_tool.Decimal.{arithmetic, whole}
use accounting_tool.Types.{
  ExtractedReceipt, CheckedReceipt, Sku, ReceiptDecision, approved, ExtractedReceiptLine,
  auto_rejected,
}
use accounting_tool.Prelude.{
  ℕ, List, Option, ◌≡◌, some, String, arith, ◌∷◌, none, string_eq, pair_eq, [], refl,
}

abbrev milk : Sku
milk = record { sku_id = "milk"; name = "Milk"; unit = "ml" }

abbrev skus : List (String × Sku)
skus = ("milk", milk) ∷ []

abbrev line : Option String → ℕ → ExtractedReceiptLine
line sku_id price = record {
  description = "a line";
  quantity = whole 2;
  unit_price = whole price;
  sku_id = sku_id;
}

abbrev day : ℕ → Date
day d = record { year = 2026; month = 5; day = d }

abbrev receipt : ℕ → ExtractedReceipt
receipt amount = record {
  supplier_id = "makro";
  invoice_date = day 4;
  lines = line (some "milk") 50 ∷ line none 10 ∷ [];
  vat = whole 8;
  total = whole amount;
}

abbrev book : ApprovalBook
book = (("milk", "makro"), record { price = whole 49; updated_at = day 1 }) ∷ []

abbrev approve : ReceiptDecision
approve = record { decision = approved; corrected_lines = none }

abbrev updated : ApprovalBook
updated = (("milk", "makro"), record { price = whole 50; updated_at = day 4 }) ∷ []

abbrev checked : CheckedReceipt
checked = check_receipt skus book (receipt 128)

abbrev stored : ApprovalResult
stored = record {
  purchase = some (to_purchase checked (lines_to_store checked none));
  final_state = approved;
}

program : Unit {0}
unfolding arithmetic lines_total passes_sum_check price_flags check_line effective_sku reference_for
    checked_line check_receipt lines_to_store to_purchase record_price record_line record_lines
    apply_decision
program = tt

approves : apply_decision checked approve book ≡ done stored updated
unfolding program
approves = refl

apply_decision-Decides_example : Decides checked approve book
apply_decision-Decides_example = apply_decision-Decides checked approve book

not_reconciled : ¬ Reconciles (receipt 130)
unfolding program
not_reconciled r = absurd (omega arith)

decided-Reconciles_example :
    apply_decision (check_receipt skus (price_snapshot book) (receipt 130)) approve book
    ≡ decision_error auto_rejected
decided-Reconciles_example = decided-Reconciles skus (receipt 130) approve book not_reconciled

approval-known_example : lookup ("soap", "makro") updated ≡ lookup ("soap", "makro") book
approval-known_example =
    approval-known skus (receipt 128) approve book updated stored "soap" "makro" refl approves refl
