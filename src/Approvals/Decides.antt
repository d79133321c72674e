-- ===== src/Approvals/Decides.antt =====
-- What a call of apply_decision in approvals.py does, on each of its branches.
use accounting_tool.Decimal.{Money}
use accounting_tool.Approvals.Laws.{last_price, record_lines-lookup}
use accounting_tool.Prelude.Dict.{lookup}
use accounting_tool.Approvals.{
  apply_decision, lines_to_store, to_purchase, ApprovalBook, record_lines, done, decision_error,
  to_extracted,
}
use accounting_tool.Types.{
  ExtractedReceiptLine, CheckedLine, Purchase, CheckedReceipt, PurchaseLine, ReceiptDecision,
  queued, LastKnownPrice, approved, rejected,
}
use accounting_tool.Prelude.{
  String, List, ◌≡◌, Option, arith, Each, ◌≢◌, map, ◌∷◌, if◌then◌else◌, none, some, ◌∙◌, ◌=?◌, [],
  ap, string_eq, option_eq, pair_eq, refl, sym,
}

-- A line that is stored, and the line of the purchase.
abbrev pub IsBought : ExtractedReceiptLine → PurchaseLine → Type 0
IsBought line bought =
    (bought.sku_id ≡ line.sku_id)
    × (bought.description ≡ line.description)
    × (bought.quantity ≡ line.quantity)
    × (bought.unit_price ≡ line.unit_price)

-- A line that was checked, and the line of the purchase.
abbrev pub IsBoughtAs : CheckedLine → PurchaseLine → Type 0
IsBoughtAs line bought =
    (bought.sku_id ≡ line.sku_id)
    × (bought.description ≡ line.description)
    × (bought.quantity ≡ line.quantity)
    × (bought.unit_price ≡ line.unit_price)

-- The price that the last line of a purchase with this SKU puts down.
abbrev pub price_bought : String → List PurchaseLine → Option Money
price_bought sku_id [] = none
price_bought sku_id (line ∷ lines) = elim (price_bought sku_id lines) [
  | some p ↦ some p
  | none ↦ if option_eq.beq line.sku_id (some sku_id) then some line.unit_price else none
]

-- The book takes the purchase's prices at its supplier, dated by it, and keeps the other entries.
abbrev pub IsPriced : Purchase → ApprovalBook → ApprovalBook → Type 0
IsPriced p book after =
    (sku_id other : String)
    → lookup (sku_id, other) after ≡ (
        if other =? p.supplier_id
        then elim (price_bought sku_id p.lines) [
          | some price ↦ some (record { price = price; updated_at = p.invoice_date })
          | none ↦ lookup (sku_id, other) book
        ]
        else lookup (sku_id, other) book)

-- The call approves with one purchase, of the receipt's supplier, date, VAT and total and of lines
-- such as these, and with its prices in the book.
abbrev pub Stores :
    CheckedReceipt → ReceiptDecision → ApprovalBook → (List PurchaseLine → Type 0) → Type 0
Stores c d book Lines =
    (p : Purchase) × (after : ApprovalBook) × (apply_decision c d book
      ≡ done (record { purchase = some p; final_state = approved }) after)
    × (p.supplier_id ≡ c.supplier_id)
    × (p.invoice_date ≡ c.invoice_date)
    × (p.vat ≡ c.vat)
    × (p.total ≡ c.total)
    × Lines p.lines
    × IsPriced p book after

-- What a call does, by the state of the receipt and the decision.
abbrev pub Decides : CheckedReceipt → ReceiptDecision → ApprovalBook → Type 0
Decides c d book =
    (c.state ≢ queued → apply_decision c d book ≡ decision_error c.state)
    × (c.state ≡ queued
        → d.decision ≡ rejected
        → apply_decision c d book ≡ done (record { purchase = none; final_state = rejected }) book)
    × (c.state ≡ queued
        → d.decision ≢ rejected
        → d.corrected_lines ≡ none
        → Stores c d book (Each IsBoughtAs c.lines))
    × ((corrected : List ExtractedReceiptLine)
        → c.state ≡ queued
        → d.decision ≢ rejected
        → d.corrected_lines ≡ some corrected
        → Stores c d book (Each IsBought corrected))

module _ (c : CheckedReceipt) where
  to_purchase-IsBought :
      (lines : List ExtractedReceiptLine) → Each IsBought lines (to_purchase c lines).lines
  unfolding to_purchase
  to_purchase-IsBought [] = tt
  to_purchase-IsBought (line ∷ lines) = ((refl, refl, refl, refl), to_purchase-IsBought lines)

  to_purchase-IsBoughtAs :
      (lines : List CheckedLine)
      → Each IsBoughtAs lines (to_purchase c (map to_extracted lines)).lines
  unfolding to_purchase
  to_purchase-IsBoughtAs [] = tt
  to_purchase-IsBoughtAs (line ∷ lines) = ((refl, refl, refl, refl), to_purchase-IsBoughtAs lines)

  price_bought-last_price :
      (sku_id : String) (lines : List ExtractedReceiptLine)
      → price_bought sku_id (to_purchase c lines).lines ≡ last_price sku_id lines
  unfolding to_purchase
  price_bought-last_price sku_id [] = refl
  price_bought-last_price sku_id (line ∷ lines) =
      ap
        (λ later. elim later as (λ _. Option Money) [
          | some p ↦ some p
          | none ↦ if option_eq.beq line.sku_id (some sku_id) then some line.unit_price else none
        ])
        (price_bought-last_price sku_id lines)

  stored-IsPriced :
      (lines : List ExtractedReceiptLine) (book : ApprovalBook)
      → IsPriced (to_purchase c lines) book (record_lines c.supplier_id c.invoice_date lines book)
  unfolding to_purchase
  stored-IsPriced lines book sku_id other =
      record_lines-lookup c.supplier_id c.invoice_date lines book sku_id other
      ∙ ap
          (λ price.
            if other =? c.supplier_id
            then elim price as (λ _. Option LastKnownPrice) [
              | some p ↦ some (record { price = p; updated_at = c.invoice_date })
              | none ↦ lookup (sku_id, other) book
            ]
            else lookup (sku_id, other) book)
          (sym (price_bought-last_price sku_id lines))

  stores :
      (d : ReceiptDecision) (book : ApprovalBook) (lines : List ExtractedReceiptLine)
      (Lines : List PurchaseLine → Type 0)
      → apply_decision c d book
        ≡ done
            (record { purchase = some (to_purchase c lines); final_state = approved })
            (record_lines c.supplier_id c.invoice_date lines book)
      → Lines (to_purchase c lines).lines
      → Stores c d book Lines
  unfolding to_purchase
  stores d book lines Lines stored fit = (
    to_purchase c lines,
    record_lines c.supplier_id c.invoice_date lines book,
    stored,
    refl,
    refl,
    refl,
    refl,
    fit,
    stored-IsPriced lines book,
  )

-- Only a queued receipt can be decided on, and the other states come back in the error; a rejection
-- stores nothing and leaves the book as it was. Any other decision stores one purchase, of the
-- receipt's supplier, date, VAT and total, with a line for each of the corrected lines, or else of
-- the checked ones, of the same SKU, description, quantity and price; and the book has the price of
-- the last line of each SKU of that purchase, at its supplier and dated by it, and its other
-- entries as they were.
pub apply_decision-Decides :
    (c : CheckedReceipt) (d : ReceiptDecision) (book : ApprovalBook) → Decides c d book
unfolding apply_decision lines_to_store
apply_decision-Decides c d book = (
  λ h. ground arith,
  λ h k. ground arith,
  λ h k e.
      stores c d book (map to_extracted c.lines) (Each IsBoughtAs c.lines) (ground arith)
        (to_purchase-IsBoughtAs c c.lines),
  λ corrected h k e.
      stores c d book corrected (Each IsBought corrected) (ground arith)
        (to_purchase-IsBought c corrected),
)
