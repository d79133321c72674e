-- ===== src/CashSpendCsv/Tests.antt =====
-- The theorems about cash_spend_csv.py at a small file, with plain readings of its text.
use accounting_tool.CashSpendCsv.Invoices.{count_siblings, group_invoices-total}
use accounting_tool.Calendar.{Date}
use accounting_tool.CashSpendCsv.Rows.{IsFit, parse_import-IsFit}
use accounting_tool.Decimal.{total, arithmetic, Decimal, whole}
use accounting_tool.CashSpendCsv.{
  Reading, ImportPreview, parse_import, SpendBucket, Supplier, template_columns, group_invoices,
  retired_bucket, unknown_supplier, unknown_bucket, repeated_in_file, amount_not_positive,
  missing_cell, with_amount,
}
use accounting_tool.Prelude.{
  String, List, All, ◌∷◌, [], Option, map, ◌≡◌, some, if◌then◌else◌, refl, length, ◌=?◌, none,
  string_eq,
}

abbrev date_of : String → Option Date
date_of s = if s =? "2026-05-01" then some (record { year = 2026; month = 5; day = 1 }) else none

abbrev amount_of : String → Option Decimal
amount_of s = if s =? "40" then some (whole 40) else if s =? "0" then some (whole 0) else none

abbrev reading : Reading
reading = record { strip = λ s. s; lower = λ s. s; date_of = date_of; decimal_of = amount_of }

abbrev suppliers : List Supplier
suppliers = record { supplier_id = "makro"; name = "Makro" } ∷ []

abbrev buckets : List SpendBucket
buckets =
    record {
      bucket_id = "taps";
      name = "Taps";
      retired_at = some "2026";
      created_at = "";
      created_by = "";
    }
    ∷ []

abbrev row_of : String → String → String → List String
row_of supplier_id bucket_id amount =
    "cash" ∷ "2026-05-01" ∷ supplier_id ∷ "beer" ∷ bucket_id ∷ amount ∷ "true" ∷ []

-- The second and third rows are the same; the last four are refused.
abbrev file : List (List String)
file =
    ("# vendor" ∷ "makro" ∷ [])
    ∷ template_columns
    ∷ row_of "makro" "taps" "40"
    ∷ row_of "makro" "taps" "40"
    ∷ []
    ∷ row_of "aro" "taps" "40"
    ∷ row_of "makro" "ice" "40"
    ∷ row_of "makro" "taps" "0"
    ∷ row_of "makro" "taps" ""
    ∷ []

abbrev preview : ImportPreview
preview = parse_import reading file suppliers buckets []

problems :
    map (λ e. e.problem) preview.errors
    ≡ unknown_supplier "aro"
      ∷ unknown_bucket "ice"
      ∷ amount_not_positive "0"
      ∷ missing_cell "amount"
      ∷ []
unfolding parse_import arithmetic with_amount
problems = refl

doubts :
    map (λ w. w.doubt) preview.warnings
    ≡ retired_bucket "taps" ∷ repeated_in_file ∷ retired_bucket "taps" ∷ []
unfolding parse_import arithmetic with_amount
doubts = refl

-- The header is the second row of the file.
numbers : map (λ r. r.row_number) preview.new_rows ≡ 3 ∷ 4 ∷ []
unfolding parse_import arithmetic with_amount
numbers = refl

parse_import-IsFit_example :
    All
      (λ r. IsFit (map (λ s. s.supplier_id) suppliers) (map (λ b. b.bucket_id) buckets) r.entry)
      (parse_import reading file suppliers buckets []).new_rows
parse_import-IsFit_example = parse_import-IsFit reading file suppliers buckets []

group_invoices-total_example :
    (total (map (λ g. g.invoice_total) (group_invoices preview.new_rows))
      ≡ total (map (λ r. r.entry.amount) preview.new_rows))
    × (count_siblings (group_invoices preview.new_rows) ≡ length preview.new_rows)
group_invoices-total_example = group_invoices-total preview.new_rows
