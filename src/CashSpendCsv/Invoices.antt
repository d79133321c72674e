-- ===== src/CashSpendCsv/Invoices.antt =====
-- cash_spend_csv.py: the invoices of the preview are made of its rows.
use accounting_tool.Decimal.Laws.{plus_zero, plus_assoc, zero_plus, plus_swap}
use accounting_tool.Decimal.Sums.{total-nil, total-cons}
use accounting_tool.CashSpendCsv.{
  ImportRow, add_invoices, add_invoice, InvoiceGroup, Groups, group_invoices, add_to_group,
  invoice_group,
}
use accounting_tool.Decimal.{Decimal, total, plus, zero_money}
use accounting_tool.Calendar.{Date, date_eq}
use accounting_tool.Prelude.{
  ℕ, ◌∷◌, List, String, ◌+◌, [], map, ◌≡◌, suc, length, Bool-cases, sym, ◌=?◌, ap, inl, ◌∙◌, inr,
  pair_eq, string_eq, arith, refl, ap₂,
}

abbrev sum_of : Groups → Decimal
sum_of groups = total (map (λ g. g.1.1) groups)

abbrev count_of : Groups → ℕ
count_of [] = 0
count_of (g ∷ groups) = g.1.0 + count_of groups

-- One more row in the group of a key, or in a new group.
add_to_group-sum :
    (key : Date × String) (amount : Decimal) (groups : Groups)
    → (sum_of (add_to_group key amount groups) ≡ plus (sum_of groups) amount)
      × (count_of (add_to_group key amount groups) ≡ suc (count_of groups))
add_to_group-sum key amount [] = (
  total-cons (plus zero_money amount) []
      ∙ ap₂ plus (zero_plus amount) total-nil
      ∙ plus_zero amount
      ∙ sym (ap (λ t. plus t amount) total-nil ∙ zero_plus amount),
  refl,
)
add_to_group-sum key amount ((j, (n, sum)) ∷ groups) = elim (Bool-cases (key =? j)) [
  | inl here ↦ rw here (
    total-cons (plus sum amount) (map (λ g. g.1.1) groups)
        ∙ plus_swap sum amount (sum_of groups)
        ∙ sym (ap (λ t. plus t amount) (total-cons sum (map (λ g. g.1.1) groups))),
    omega arith,
  )
  | inr past ↦
      let (sums, counts) = add_to_group-sum key amount groups in
      rw past (
        total-cons sum (map (λ g. g.1.1) (add_to_group key amount groups))
            ∙ ap (plus sum) sums
            ∙ sym (plus_assoc sum (sum_of groups) amount)
            ∙ sym (ap (λ t. plus t amount) (total-cons sum (map (λ g. g.1.1) groups))),
        omega (arith, counts),
      )
]

add_invoices-sum :
    (rows : List ImportRow) (groups : Groups)
    → (sum_of (add_invoices rows groups)
        ≡ plus (sum_of groups) (total (map (λ r. r.entry.amount) rows)))
      × (count_of (add_invoices rows groups) ≡ count_of groups + length rows)
add_invoices-sum [] groups =
    (sym (ap (plus (sum_of groups)) total-nil ∙ plus_zero (sum_of groups)), omega arith)
add_invoices-sum (row ∷ rows) groups =
    let (sums, counts) =
      add_to_group-sum (row.entry.date, row.entry.supplier_id) row.entry.amount groups in
    let (later, later_counts) = add_invoices-sum rows (add_invoice row groups) in
    (
      later
          ∙ ap (λ t. plus t (total (map (λ r. r.entry.amount) rows))) sums
          ∙ plus_assoc (sum_of groups) row.entry.amount (total (map (λ r. r.entry.amount) rows))
          ∙ ap (plus (sum_of groups))
              (sym (total-cons row.entry.amount (map (λ r. r.entry.amount) rows))),
      omega (arith, counts, later_counts),
    )

abbrev pub count_siblings : List InvoiceGroup → ℕ
count_siblings [] = 0
count_siblings (g ∷ groups) = g.sibling_count + count_siblings groups

totals_same :
    (groups : Groups)
    → map (λ g. g.invoice_total) (map invoice_group groups) ≡ map (λ g. g.1.1) groups
totals_same [] = refl
totals_same (g ∷ groups) = ap (λ l. g.1.1 ∷ l) (totals_same groups)

counts_same : (groups : Groups) → count_siblings (map invoice_group groups) ≡ count_of groups
counts_same [] = refl
counts_same (g ∷ groups) = ap (λ n. g.1.0 + n) (counts_same groups)

-- The invoices of a preview account for all of its rows: their totals come to what the rows amount
-- to, and their numbers of rows to the number of rows.
pub group_invoices-total :
    (rows : List ImportRow)
    → (total (map (λ g. g.invoice_total) (group_invoices rows))
        ≡ total (map (λ r. r.entry.amount) rows))
      × (count_siblings (group_invoices rows) ≡ length rows)
unfolding group_invoices
group_invoices-total rows =
    let (sums, counts) = add_invoices-sum rows [] in
    let none_yet : count_of [] + length rows ≡ length rows = omega arith in
    (
      ap total (totals_same (add_invoices rows []))
          ∙ sums
          ∙ ap (λ t. plus t (total (map (λ r. r.entry.amount) rows))) total-nil
          ∙ zero_plus (total (map (λ r. r.entry.amount) rows)),
      counts_same (add_invoices rows []) ∙ counts ∙ none_yet,
    )
