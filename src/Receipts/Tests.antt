-- ===== src/Receipts/Tests.antt =====
-- Runs of receipts.py on small receipts, and its theorems at them.
use accounting_tool.Receipts.Flags.{IsFlagged, check_receipt-IsFlagged}
use accounting_tool.Receipts.Laws.{Reconciles, IsQueued, IsBounced, IsOf, check_receipt-outcome}
use accounting_tool.Calendar.{Date}
use accounting_tool.Decimal.{arithmetic, whole, fraction}
use accounting_tool.Types.{
  ExtractedReceipt, Sku, ExtractedReceiptLine, price_deviation, LastKnownPrice, queued,
  auto_rejected, unmapped_sku,
}
use accounting_tool.Receipts.{
  check_receipt, lines_total, passes_sum_check, price_flags, check_line, effective_sku,
  reference_for, checked_line,
}
use accounting_tool.Prelude.{ℕ, List, Option, map, ◌≡◌, some, String, ◌∷◌, [], refl, Each, ◌≢◌}

abbrev pub milk : Sku
milk = record { sku_id = "milk"; name = "Milk"; unit = "ml" }

abbrev pub skus : List (String × Sku)
skus = ("milk", milk) ∷ []

abbrev pub line : Option String → ℕ → ExtractedReceiptLine
line sku_id cents = record {
  description = "a line";
  quantity = whole 2;
  unit_price = fraction cents 2;
  sku_id = sku_id;
}

abbrev pub first_of_may : Date
first_of_may = record { year = 2026; month = 5; day = 1 }

-- Two lines of 2 x 50.00 and 2 x 10.00, and 8.40 of VAT.
abbrev pub receipt : ℕ → ExtractedReceipt
receipt total_cents = record {
  supplier_id = "makro";
  invoice_date = first_of_may;
  lines = line (some "milk") 5000 ∷ line (some "soap") 1000 ∷ [];
  vat = fraction 840 2;
  total = fraction total_cents 2;
}

abbrev pub known : List ((String × String) × LastKnownPrice)
known = (("milk", "makro"), record { price = whole 45; updated_at = first_of_may }) ∷ []

program : Unit {0}
unfolding arithmetic lines_total passes_sum_check price_flags check_line effective_sku reference_for
    checked_line check_receipt
program = tt

-- One baht off is tolerated, and a satang more is not.
sum_check_boundary :
    ((check_receipt skus known (receipt 12940)).state ≡ queued)
    × ((check_receipt skus known (receipt 12941)).state ≡ auto_rejected)
unfolding program
sum_check_boundary = (refl, refl)

-- 50 is more than 5% off 45; "soap" is no known SKU.
flags_example :
    map (λ l. l.flags) (check_receipt skus known (receipt 12840)).lines
    ≡ (price_deviation ∷ []) ∷ (unmapped_sku ∷ []) ∷ []
unfolding program
flags_example = refl

check_receipt-outcome_example :
    let c = check_receipt skus known (receipt 12940) in
    (Reconciles (receipt 12940) → IsQueued (receipt 12940) c)
    × (¬ Reconciles (receipt 12940) → IsBounced (receipt 12940) c)
    × IsOf (receipt 12940) c
check_receipt-outcome_example = check_receipt-outcome skus known (receipt 12940)

check_receipt-IsFlagged_example :
    let c = check_receipt skus known (receipt 12840) in
    (c.state ≡ queued → Each (IsFlagged skus known "makro") (receipt 12840).lines c.lines)
    × (c.state ≢ queued → c.lines ≡ [])
check_receipt-IsFlagged_example = check_receipt-IsFlagged skus known (receipt 12840)
