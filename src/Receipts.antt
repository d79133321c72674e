-- ===== src/Receipts.antt =====
-- receipts.py: the three checks of an extracted receipt.
pub mod Laws
pub mod Flags
mod Tests
use accounting_tool.Prelude.{
  string_eq, pair_eq, String, Bool, not, Option, none, some, List, [], ◌∷◌, map, if◌then◌else◌,
}
use accounting_tool.Prelude.Dict.{lookup, contains}
use accounting_tool.Decimal.{
  Decimal, plus, minus, times, total, absolute, at_most, less, same, quotient, zero_money, fraction,
}
use accounting_tool.Types.{
  LineFlag, price_deviation, unmapped_sku, queued, auto_rejected, ExtractedReceiptLine,
  ExtractedReceipt, LastKnownPrice, CheckedLine, CheckedReceipt, Sku,
}

-- 1.00 THB
abbrev pub sum_tolerance : Decimal
sum_tolerance = fraction 100 2

-- 5%
abbrev pub price_deviation_threshold : Decimal
price_deviation_threshold = fraction 5 2

abbrev pub line_amount : ExtractedReceiptLine → Decimal
line_amount line = times line.quantity line.unit_price

-- `sum(...) or Decimal("0")`
unfoldable pub lines_total : ExtractedReceipt → Decimal
lines_total extracted =
    let s = total (map line_amount extracted.lines) in if same s zero_money then zero_money else s

unfoldable pub passes_sum_check : ExtractedReceipt → Bool
passes_sum_check extracted =
    let expected = plus (lines_total extracted) extracted.vat in
    at_most (absolute (minus expected extracted.total)) sum_tolerance

unfoldable pub price_flags : Decimal → Option LastKnownPrice → List LineFlag
price_flags line_unit_price none = []
price_flags line_unit_price (some reference) =
    if same reference.price zero_money
    then []
    else let deviation =
        quotient (absolute (minus line_unit_price reference.price)) reference.price in
      if less price_deviation_threshold deviation then price_deviation ∷ [] else []

unfoldable pub check_line : Decimal → Option String → Option LastKnownPrice → List LineFlag
check_line extracted_unit_price none reference_price = unmapped_sku ∷ []
check_line extracted_unit_price (some sku_id) reference_price =
    price_flags extracted_unit_price reference_price

-- `line.sku_id if line.sku_id in skus else None`
unfoldable pub effective_sku : List (String × Sku) → Option String → Option String
effective_sku skus none = none
effective_sku skus (some sku_id) = if contains sku_id skus then some sku_id else none

unfoldable pub reference_for :
    List ((String × String) × LastKnownPrice) → Option String → String → Option LastKnownPrice
reference_for reference_prices none supplier_id = none
reference_for reference_prices (some sku_id) supplier_id =
    lookup (sku_id, supplier_id) reference_prices

module _ (skus : List (String × Sku))
    (reference_prices : List ((String × String) × LastKnownPrice)) where
  -- The body of the loop over the lines.
  unfoldable pub checked_line : String → ExtractedReceiptLine → CheckedLine
  checked_line supplier_id line = record {
    description = line.description;
    quantity = line.quantity;
    unit_price = line.unit_price;
    sku_id = effective_sku skus line.sku_id;
    flags =
        check_line line.unit_price (effective_sku skus line.sku_id)
          (reference_for reference_prices line.sku_id supplier_id);
  }

  unfoldable pub check_receipt : ExtractedReceipt → CheckedReceipt
  check_receipt extracted =
      if not (passes_sum_check extracted)
      then record {
        supplier_id = extracted.supplier_id;
        invoice_date = extracted.invoice_date;
        vat = extracted.vat;
        total = extracted.total;
        state = auto_rejected;
        lines = [];
        rejection_reason = some (record {
          lines_total = lines_total extracted;
          vat = extracted.vat;
          total = extracted.total;
          tolerance = sum_tolerance;
        });
      }
      else record {
        supplier_id = extracted.supplier_id;
        invoice_date = extracted.invoice_date;
        vat = extracted.vat;
        total = extracted.total;
        state = queued;
        lines = map (checked_line extracted.supplier_id) extracted.lines;
        rejection_reason = none;
      }
