-- ===== src/Receipts/Flags.antt =====
-- How receipts.py flags the lines of a receipt.
use accounting_tool.Decimal.Value.{AtMost, Same, less_iff, same_iff}
use accounting_tool.Prelude.Dict.{contains, lookup}
use accounting_tool.Types.{
  Sku, LastKnownPrice, price_deviation, ExtractedReceiptLine, CheckedLine, unmapped_sku,
  ExtractedReceipt, queued,
}
use accounting_tool.Decimal.{Decimal, less, same, zero_money, quotient, absolute, minus, fraction}
use accounting_tool.Receipts.{
  check_line, effective_sku, price_flags, check_receipt, checked_line, reference_for,
  passes_sum_check, price_deviation_threshold,
}
use accounting_tool.Prelude.{
  List, Option, String, ◌≡◌, none, false, true, some, ◌∷◌, Each, refl, ◌⊎◌, map, [], inl, ◌≢◌, inr,
  Bool-cases, ◌∙◌, string_eq, arith, pair_eq, subst,
}

-- The price is more than 5% off a last known price, as the division rounds it; no price is known to
-- be off when there is none to go by, or one of zero.
abbrev pub Deviates : Decimal → Option LastKnownPrice → Type 0
Deviates p none = ⊥
Deviates p (some known) =
    ¬ Same known.price zero_money
    × ¬ AtMost (quotient (absolute (minus p known.price)) known.price) (fraction 5 2)

-- A line as it was extracted, and as it was checked. One that names no known SKU keeps none and is
-- flagged as that and as nothing else; one that does keeps its SKU, and its price is flagged
-- exactly when it deviates from the last known price of that SKU at the supplier.
abbrev pub IsFlagged :
    List (String × Sku)
    → List ((String × String) × LastKnownPrice)
    → String
    → ExtractedReceiptLine
    → CheckedLine
    → Type 0
IsFlagged skus prices supplier line checked =
    ((s : String) → line.sku_id ≡ some s → contains s skus ≡ false)
      × (checked.sku_id ≡ none)
      × (checked.flags ≡ unmapped_sku ∷ [])
    ⊎ ((s : String) × (line.sku_id ≡ some s)
        × (contains s skus ≡ true)
        × (checked.sku_id ≡ some s)
        × (Deviates line.unit_price (lookup (s, supplier) prices)
              × (checked.flags ≡ price_deviation ∷ [])
            ⊎ (¬ Deviates line.unit_price (lookup (s, supplier) prices)) × (checked.flags ≡ [])))

not-AtMost : (a b : Decimal) → less b a ≡ true → ¬ AtMost a b
not-AtMost a b h k = let q : less b a ≡ false = (less_iff b a).1 k in absurd (cc)

AtMost-of_less : (a b : Decimal) → less b a ≡ false → AtMost a b
AtMost-of_less a b h = (less_iff b a).0 h

price_flags-Deviates :
    (p : Decimal) (known : Option LastKnownPrice)
    → Deviates p known × (price_flags p known ≡ price_deviation ∷ [])
      ⊎ (¬ Deviates p known) × (price_flags p known ≡ [])
unfolding price_flags
price_flags-Deviates p none = inr ((λ h. h), refl)
price_flags-Deviates p (some known) = elim (Bool-cases (same known.price zero_money)) [
  | inl free ↦ inr ((λ h. h.0 ((same_iff known.price zero_money).0 free)), rw free refl)
  | inr priced ↦
      let off = quotient (absolute (minus p known.price)) known.price in
      let nonzero : ¬ Same known.price zero_money =
        λ h. let q = (same_iff known.price zero_money).1 h in absurd (cc) in
      elim (Bool-cases (less price_deviation_threshold off)) [
        | inl above ↦ inl ((nonzero, not-AtMost off (fraction 5 2) above), rw (priced, above) refl)
        | inr within ↦
            inr ((λ h. h.1 (AtMost-of_less off (fraction 5 2) within)), rw (priced, within) refl)
      ]
]

unmapped : (p : Decimal) (r : Option LastKnownPrice) → check_line p none r ≡ unmapped_sku ∷ []
unfolding check_line
unmapped p r = refl

mapped :
    (p : Decimal) (s : String) (r : Option LastKnownPrice)
    → check_line p (some s) r ≡ price_flags p r
unfolding check_line
mapped p s r = refl

effective_sku-cases :
    (skus : List (String × Sku)) (o : Option String)
    → ((s : String) → o ≡ some s → contains s skus ≡ false) × (effective_sku skus o ≡ none)
      ⊎ ((s : String) × (o ≡ some s) × (contains s skus ≡ true) × (effective_sku skus o ≡ some s))
unfolding effective_sku
effective_sku-cases skus none = inl ((λ s h. absurd (cc)), refl)
effective_sku-cases skus (some t) = elim (Bool-cases (contains t skus)) [
  | inl e ↦ inr (t, refl, e, rw e refl)
  | inr e ↦
      inl (
        (λ s h. let q : t ≡ s = ground arith in subst (λ x. contains x skus ≡ false) q e),
        rw e refl,
      )
]

module _ (skus : List (String × Sku)) (prices : List ((String × String) × LastKnownPrice)) where
  checked_line-IsFlagged :
      (supplier : String) (line : ExtractedReceiptLine)
      → IsFlagged skus prices supplier line (checked_line skus prices supplier line)
  unfolding checked_line reference_for
  checked_line-IsFlagged supplier line = elim (effective_sku-cases skus line.sku_id) [
    | inl (unknown, e) ↦
        inl
          (unknown, e, rw e (unmapped line.unit_price (reference_for prices line.sku_id supplier)))
    | inr (s, named, known, e) ↦
        let reference = lookup (s, supplier) prices in
        let flags : (checked_line skus prices supplier line).flags
            ≡ price_flags line.unit_price reference =
          rw (e, named) (mapped line.unit_price s reference) in
        inr (
          s,
          named,
          known,
          e,
          elim (price_flags-Deviates line.unit_price reference) [
            | inl (off, f) ↦ inl (off, flags ∙ f)
            | inr (near, f) ↦ inr (near, flags ∙ f)
          ],
        )
  ]

  lines-IsFlagged :
      (supplier : String) (lines : List ExtractedReceiptLine)
      → Each (IsFlagged skus prices supplier) lines (map (checked_line skus prices supplier) lines)
  lines-IsFlagged supplier [] = tt
  lines-IsFlagged supplier (line ∷ lines) =
      (checked_line-IsFlagged supplier line, lines-IsFlagged supplier lines)

  -- On a queued receipt every line is flagged by the rule. A line that names no known SKU keeps
  -- none and is flagged as unmapped. One that does keeps its SKU, and has its price flagged exactly
  -- when there is a last known price of that SKU at the supplier, other than zero, which the
  -- price is more than 5% off. A receipt that is not queued has no lines.
  pub check_receipt-IsFlagged :
      (e : ExtractedReceipt)
      → let c = check_receipt skus prices e in
        (c.state ≡ queued → Each (IsFlagged skus prices e.supplier_id) e.lines c.lines)
        × (c.state ≢ queued → c.lines ≡ [])
  unfolding check_receipt
  check_receipt-IsFlagged e = elim (Bool-cases (passes_sum_check e)) [
    | inl h ↦ rw h ((λ _. lines-IsFlagged e.supplier_id e.lines), λ no. absurd (no refl))
    | inr h ↦ rw h ((λ q. absurd (cc)), λ _. refl)
  ]
