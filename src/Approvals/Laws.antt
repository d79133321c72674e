-- ===== src/Approvals/Laws.antt =====
-- What approvals.py lets into the books.
use accounting_tool.Receipts.Flags.{check_receipt-IsFlagged, IsFlagged}
use accounting_tool.Receipts.Laws.{Reconciles, check_receipt-outcome}
use accounting_tool.Receipts.{check_receipt}
use accounting_tool.Types.{Sku, ExtractedReceipt, auto_rejected, ReceiptState, new}
use accounting_tool.Prelude.Dict.{lookup-insert, contains}
use accounting_tool.Approvals.{
  record_lines, record_line, Date, record_price, List, Option, ExtractedReceiptLine, ApprovalBook,
  Money, LastKnownPrice, lookup, none, ◌∷◌, some, CheckedReceipt, lines_to_store, apply_decision,
  ReceiptDecision, ApprovalResult, done, false, queued, price_snapshot, decision_error, approved,
  rejected, CheckedLine, map, to_extracted, true, is_queued,
}
use accounting_tool.Prelude.{
  String, ◌≡◌, if◌then◌else◌, arith, ◌=?◌, ◌&&◌, option_eq, pair_eq, string_eq, [], ap, refl, inl,
  inr, Bool-cases, subst, eq_sound, Each,
}

-- The price that the last of the lines with this SKU puts down.
abbrev pub last_price : String → List ExtractedReceiptLine → Option Money
last_price sku_id [] = none
last_price sku_id (line ∷ lines) =
    let later = last_price sku_id lines in
    elim later [
      | some p ↦ some p
      | none ↦ if option_eq.beq line.sku_id (some sku_id) then some line.unit_price else none
    ]

-- The entry for a SKU and a supplier after a supplier's lines are recorded.
abbrev pub entry_after :
    String
    → String
    → Date
    → List ExtractedReceiptLine
    → ApprovalBook
    → String
    → Option LastKnownPrice
entry_after sku_id supplier_id on lines book other =
    if other =? supplier_id
    then elim (last_price sku_id lines) [
      | some p ↦ some (record { price = p; updated_at = on })
      | none ↦ lookup (sku_id, other) book
    ]
    else lookup (sku_id, other) book

record_line-lookup :
    (supplier_id : String) (on : Date) (o : Option String) (p : Money) (book : ApprovalBook)
    (sku_id other : String)
    → lookup (sku_id, other) (record_line supplier_id on o p book) ≡ (
        if other =? supplier_id && option_eq.beq o (some sku_id)
        then some (record { price = p; updated_at = on })
        else lookup (sku_id, other) book)
unfolding record_line record_price
record_line-lookup supplier_id on none p book sku_id other = ground arith
record_line-lookup supplier_id on (some s) p book sku_id other =
    rw (lookup-insert (s, supplier_id) (sku_id, other) (record { price = p; updated_at = on }) book)
      (ground (
        arith,
        string_eq.beq_iff sku_id s,
        string_eq.beq_iff s sku_id,
        string_eq.beq_iff other supplier_id,
      ))

-- Recording lines sets, for the receipt's supplier, the price of each SKU to that of its last line,
-- dated by the invoice, and leaves every other entry as it was.
pub record_lines-lookup :
    (supplier_id : String) (on : Date) (lines : List ExtractedReceiptLine) (book : ApprovalBook)
    (sku_id other : String)
    → lookup (sku_id, other) (record_lines supplier_id on lines book)
      ≡ entry_after sku_id supplier_id on lines book other
unfolding record_lines
record_lines-lookup supplier_id on [] book sku_id other = ground arith
record_lines-lookup supplier_id on (line ∷ lines) book sku_id other =
    rw
      (record_lines-lookup supplier_id on lines
        (record_line supplier_id on line.sku_id line.unit_price book) sku_id other)
      (ground
        (arith, record_line-lookup supplier_id on line.sku_id line.unit_price book sku_id other))

last_price_unknown :
    (skus : List (String × Sku)) (prices : List ((String × String) × LastKnownPrice))
    (supplier sku_id : String)
    → contains sku_id skus ≡ false
    → (extracted : List ExtractedReceiptLine) (lines : List CheckedLine)
    → Each (IsFlagged skus prices supplier) extracted lines
    → last_price sku_id (map to_extracted lines) ≡ none
last_price_unknown skus prices supplier sku_id h [] [] all = refl
last_price_unknown skus prices supplier sku_id h [] (line ∷ lines) all = absurd all
last_price_unknown skus prices supplier sku_id h (x ∷ extracted) [] all = absurd all
last_price_unknown skus prices supplier sku_id h (x ∷ extracted) (line ∷ lines) all =
    let ih = last_price_unknown skus prices supplier sku_id h extracted lines all.1 in
    elim all.0 [
      | inl (_, e, _) ↦ ground (arith, ih)
      | inr (s, _, known, e, _) ↦ elim (Bool-cases (s =? sku_id)) [
        | inl same ↦
            let known' : contains sku_id skus ≡ true =
              subst (λ t. contains t skus ≡ true) (eq_sound s sku_id same) known in
            absurd (cc)
        | inr other ↦ ground (arith, ih)
      ]
    ]

-- A bounced receipt has no lines, and none of a queued one puts down a price for an unknown SKU.
checked_unknown :
    (skus : List (String × Sku)) (prices : List ((String × String) × LastKnownPrice))
    (e : ExtractedReceipt) (sku_id : String)
    → contains sku_id skus ≡ false
    → last_price sku_id (map to_extracted (check_receipt skus prices e).lines) ≡ none
checked_unknown skus prices e sku_id unknown =
    let c = check_receipt skus prices e in
    let (fits, bare) = check_receipt-IsFlagged skus prices e in
    elim (Bool-cases (is_queued c.state)) [
      | inl q ↦
          last_price_unknown skus prices e.supplier_id sku_id unknown e.lines c.lines
            (fits (queued_of c.state q))
      | inr n ↦
          let empty =
            bare (λ q. let t : is_queued c.state ≡ true = ap is_queued q in absurd (cc)) in
          ap (λ ls. last_price sku_id (map to_extracted ls)) empty
    ]
  where
    queued_of : (state : ReceiptState) → is_queued state ≡ true → state ≡ queued
    queued_of new h = absurd (cc)
    queued_of auto_rejected h = absurd (cc)
    queued_of queued h = refl
    queued_of approved h = absurd (cc)
    queued_of rejected h = absurd (cc)

-- Approving a checked receipt without corrections changes the price of no SKU that is unknown.
pub approval-known :
    (skus : List (String × Sku)) (e : ExtractedReceipt) (d : ReceiptDecision)
    (book after : ApprovalBook) (r : ApprovalResult) (sku_id other : String)
    → d.corrected_lines ≡ none
    → apply_decision (check_receipt skus (price_snapshot book) e) d book ≡ done r after
    → contains sku_id skus ≡ false
    → lookup (sku_id, other) after ≡ lookup (sku_id, other) book
unfolding apply_decision lines_to_store
approval-known skus e d book after r sku_id other plain h unknown =
    let c = check_receipt skus book e in
    ground (
      arith,
      record_lines-lookup c.supplier_id c.invoice_date (map to_extracted c.lines) book sku_id other,
      checked_unknown skus book e sku_id unknown,
    )

refused :
    (c : CheckedReceipt) (d : ReceiptDecision) (book : ApprovalBook)
    → c.state ≡ auto_rejected
    → apply_decision c d book ≡ decision_error auto_rejected
unfolding apply_decision
refused c d book h = ground arith

-- Nothing of a receipt that fails to reconcile reaches the books: no decision on it goes through.
pub decided-Reconciles :
    (skus : List (String × Sku)) (e : ExtractedReceipt) (d : ReceiptDecision) (book : ApprovalBook)
    → ¬ Reconciles e
    → apply_decision (check_receipt skus (price_snapshot book) e) d book
      ≡ decision_error auto_rejected
decided-Reconciles skus e d book h =
    let c = check_receipt skus (price_snapshot book) e in
    let bounced = (check_receipt-outcome skus (price_snapshot book) e).1 h in
    refused (check_receipt skus (price_snapshot book) e) d book bounced.0
