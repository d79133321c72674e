-- ===== src/Receipts/Laws.antt =====
-- What `check_receipt` of receipts.py guarantees.
use accounting_tool.Decimal.Congruence.{
  Same-plus, AtMost-trans, Same-refl, AtMost-of_Same, Same-sym,
}
use accounting_tool.Prelude.{
  string_eq, pair_eq, String, ◌≡◌, ◌↔◌, true, none, some, List, [], ◌∷◌, map, inl, inr, refl,
  Bool-cases, Each,
}
use accounting_tool.Decimal.{
  Decimal, plus, minus, absolute, same, total, fraction, times, zero_money,
}
use accounting_tool.Decimal.Value.{AtMost, at_most_iff, absolute-minus_iff, Same, same_iff}
use accounting_tool.Receipts.{
  check_receipt, checked_line, passes_sum_check, sum_tolerance, lines_total,
}
use accounting_tool.Types.{
  queued, auto_rejected, ExtractedReceipt, ExtractedReceiptLine, LastKnownPrice, CheckedLine,
  CheckedReceipt, Sku, Rejection,
}

-- What the lines come to: quantity times price, added up.
abbrev pub stated_sum : ExtractedReceipt → Decimal
stated_sum e = total (map (λ l. times l.quantity l.unit_price) e.lines)

-- The lines and the VAT come to the stated total, give or take 1.00.
abbrev pub Reconciles : ExtractedReceipt → Type 0
Reconciles e =
    let expected = plus (stated_sum e) e.vat in
    AtMost expected (plus e.total (fraction 100 2))
    × AtMost e.total (plus expected (fraction 100 2))

lines_total-stated_sum : (e : ExtractedReceipt) → Same (lines_total e) (stated_sum e)
unfolding lines_total
lines_total-stated_sum e = elim (Bool-cases (same (stated_sum e) zero_money)) [
  | inl h ↦ rw h (Same-sym (stated_sum e) zero_money ((same_iff (stated_sum e) zero_money).0 h))
  | inr h ↦ rw h (Same-refl (stated_sum e))
]

within_alike :
    (a b t d : Decimal)
    → Same a b
    → (AtMost a (plus t d) × AtMost t (plus a d)) ↔ (AtMost b (plus t d) × AtMost t (plus b d))
within_alike a b t d h = (one a b h, one b a (Same-sym a b h))
  where
    one :
        (a b : Decimal)
        → Same a b
        → AtMost a (plus t d) × AtMost t (plus a d)
        → AtMost b (plus t d) × AtMost t (plus b d)
    one a b h k = (
      AtMost-trans b a (plus t d) (AtMost-of_Same b a (Same-sym a b h)) k.0,
      AtMost-trans t (plus a d) (plus b d) k.1
          (AtMost-of_Same (plus a d) (plus b d) (Same-plus a b d d h (Same-refl d))),
    )

-- The sum check passes exactly when the receipt reconciles.
passes_sum_check_iff : (e : ExtractedReceipt) → (passes_sum_check e ≡ true) ↔ Reconciles e
unfolding passes_sum_check
passes_sum_check_iff e =
    let got = plus (lines_total e) e.vat in
    let spec = plus (stated_sum e) e.vat in
    let alike =
      Same-plus (lines_total e) (stated_sum e) e.vat e.vat (lines_total-stated_sum e)
        (Same-refl e.vat) in
    let rule = absolute-minus_iff got e.total sum_tolerance in
    let test = at_most_iff (absolute (minus got e.total)) sum_tolerance in
    let (to, from) = within_alike got spec e.total sum_tolerance alike in
    (λ h. to (rule.0 (test.0 h)), λ h. test.1 (rule.1 (from h)))

-- A line as it was extracted, and as it was checked.
abbrev pub IsSame : ExtractedReceiptLine → CheckedLine → Type 0
IsSame line checked =
    (checked.description ≡ line.description)
    × (checked.quantity ≡ line.quantity)
    × (checked.unit_price ≡ line.unit_price)

-- The receipt goes on with every line as it was extracted.
abbrev pub IsQueued : ExtractedReceipt → CheckedReceipt → Type 0
IsQueued e c = (c.state ≡ queued) × Each IsSame e.lines c.lines × (c.rejection_reason ≡ none)

-- The reason names the sum of the lines, the VAT, the total and the tolerance.
abbrev pub IsBounced : ExtractedReceipt → CheckedReceipt → Type 0
IsBounced e c =
    (c.state ≡ auto_rejected)
    × (c.lines ≡ [])
    × ((r : Rejection) × (c.rejection_reason ≡ some r)
        × Same r.lines_total (stated_sum e)
        × (r.vat ≡ e.vat)
        × (r.total ≡ e.total))

-- The rest of a receipt, which the check passes on.
abbrev pub IsOf : ExtractedReceipt → CheckedReceipt → Type 0
IsOf e c =
    (c.supplier_id ≡ e.supplier_id)
    × (c.invoice_date ≡ e.invoice_date)
    × (c.vat ≡ e.vat)
    × (c.total ≡ e.total)

checked_line-IsSame :
    (skus : List (String × Sku)) (prices : List ((String × String) × LastKnownPrice))
    (supplier : String) (lines : List ExtractedReceiptLine)
    → Each IsSame lines (map (checked_line skus prices supplier) lines)
unfolding checked_line
checked_line-IsSame skus prices supplier [] = tt
checked_line-IsSame skus prices supplier (l ∷ lines) =
    ((refl, refl, refl), checked_line-IsSame skus prices supplier lines)

-- A receipt reconciles when its lines, each its quantity times its price, and the VAT come to its
-- total, give or take 1.00. One that does is queued without a reason and with all of its lines,
-- each with its own description, quantity and price; one that does not is rejected without lines,
-- for a reason that states that sum, the VAT and the total. Either way the supplier, the date, the
-- VAT and the total are those of the receipt.
pub check_receipt-outcome :
    (skus : List (String × Sku)) (prices : List ((String × String) × LastKnownPrice))
    (e : ExtractedReceipt)
    → let c = check_receipt skus prices e in
      (Reconciles e → IsQueued e c) × (¬ Reconciles e → IsBounced e c) × IsOf e c
unfolding check_receipt
check_receipt-outcome skus prices e = elim (Bool-cases (passes_sum_check e)) [
  | inl h ↦ rw h (
    λ _. (refl, checked_line-IsSame skus prices e.supplier_id e.lines, refl),
    λ no_match. absurd (no_match ((passes_sum_check_iff e).0 h)),
    (refl, refl, refl, refl),
  )
  | inr h ↦ rw h (
    λ r. let q : passes_sum_check e ≡ true = (passes_sum_check_iff e).1 r in absurd (cc),
    λ _. (refl, refl, (_, refl, lines_total-stated_sum e, refl, refl)),
    (refl, refl, refl, refl),
  )
]
