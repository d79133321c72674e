-- ===== src/Approvals.antt =====
-- approvals.py: a partner's decision on a checked receipt, and the book of last known prices.
pub mod Laws
pub mod Decides
mod Tests
use accounting_tool.Prelude.{
  string_eq, pair_eq, String, Bool, true, false, not, Option, none, some, List, [], ◌∷◌, map,
  if◌then◌else◌,
}
use accounting_tool.Prelude.Dict.{lookup, insert, keys}
use accounting_tool.Decimal.{Money}
use accounting_tool.Calendar.{Date}
use accounting_tool.Types.{
  ReceiptState, queued, approved, rejected, ExtractedReceiptLine, LastKnownPrice, CheckedLine,
  CheckedReceipt, ReceiptDecision, Purchase,
}

pub record ApprovalResult : Type 0 where
  pub purchase : Option Purchase
  pub final_state : ReceiptState

-- `_prices`, keyed by SKU and supplier.
abbrev pub ApprovalBook : Type 0
ApprovalBook = List ((String × String) × LastKnownPrice)

-- The call raises `DecisionError` with the state that it names, or returns its result and the book.
pub data Outcome : Type 0 where
  decision_error : ReceiptState → Outcome
  done : ApprovalResult → ApprovalBook → Outcome

unfoldable pub last_known_price : ApprovalBook → String → String → Option (Money × Date)
last_known_price book sku_id supplier_id = elim (lookup (sku_id, supplier_id) book) [
  | none ↦ none
  | some entry ↦ some (entry.price, entry.updated_at)
]

-- Python returns a set: the order of this list is not the program's to choose.
abbrev pub price_keys : ApprovalBook → List (String × String)
price_keys book = keys book

abbrev pub price_snapshot : ApprovalBook → List ((String × String) × LastKnownPrice)
price_snapshot book = book

-- `_record`
unfoldable pub record_price : String → String → Money → Date → ApprovalBook → ApprovalBook
record_price sku_id supplier_id price on book =
    insert (sku_id, supplier_id) (record { price = price; updated_at = on }) book

abbrev pub to_extracted : CheckedLine → ExtractedReceiptLine
to_extracted line = record {
  description = line.description;
  quantity = line.quantity;
  unit_price = line.unit_price;
  sku_id = line.sku_id;
}

unfoldable pub lines_to_store :
    CheckedReceipt → Option (List ExtractedReceiptLine) → List ExtractedReceiptLine
lines_to_store checked none = map to_extracted checked.lines
lines_to_store checked (some corrected) = corrected

unfoldable pub to_purchase : CheckedReceipt → List ExtractedReceiptLine → Purchase
to_purchase checked lines = record {
  supplier_id = checked.supplier_id;
  invoice_date = checked.invoice_date;
  lines =
      map
        (λ line. record {
          sku_id = line.sku_id;
          description = line.description;
          quantity = line.quantity;
          unit_price = line.unit_price;
        })
        lines;
  vat = checked.vat;
  total = checked.total;
}

-- The body of the loop over the stored lines.
unfoldable pub record_line : String → Date → Option String → Money → ApprovalBook → ApprovalBook
record_line supplier_id on none price book = book
record_line supplier_id on (some sku_id) price book = record_price sku_id supplier_id price on book

unfoldable pub record_lines :
    String → Date → List ExtractedReceiptLine → ApprovalBook → ApprovalBook
record_lines supplier_id on [] book = book
record_lines supplier_id on (line ∷ lines) book =
    record_lines supplier_id on lines (record_line supplier_id on line.sku_id line.unit_price book)

abbrev pub is_queued : ReceiptState → Bool
is_queued queued = true
is_queued _ = false

abbrev pub is_rejected : ReceiptState → Bool
is_rejected rejected = true
is_rejected _ = false

unfoldable pub apply_decision : CheckedReceipt → ReceiptDecision → ApprovalBook → Outcome
apply_decision checked decision book =
    if not (is_queued checked.state)
    then decision_error checked.state
    else if is_rejected decision.decision
    then done (record { purchase = none; final_state = rejected }) book
    else let lines = lines_to_store checked decision.corrected_lines in
      done (record { purchase = some (to_purchase checked lines); final_state = approved })
        (record_lines checked.supplier_id checked.invoice_date lines book)
