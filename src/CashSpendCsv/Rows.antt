-- ===== src/CashSpendCsv/Rows.antt =====
-- cash_spend_csv.py: what is read from a file is fit for the ledger, and no row is lost.
use accounting_tool.Calendar.{Date}
use accounting_tool.Decimal.{Decimal, at_most, zero_money}
use accounting_tool.CashSpend.{CashSpendEntry}
use accounting_tool.CashSpendCsv.{
  Reading, with_amount, RowKey, ImportState, RowParse, parse_entry_row, read_row, member, take_row,
  read_rows, with_vat, Problem, refused, accepted, amount_not_positive, parse_vat_default_false,
  after_header, parse_import, Supplier, is_skipped, SpendBucket, cell_at, find_header, ImportRow,
  RowError, is_retired, missing_columns, ImportPreview, only_errors, preview_of, key_of,
  nothing_read,
}
use accounting_tool.Prelude.{
  ℕ, List, String, Option, Bool, All, ◌=?◌, not, ◌≡◌, some, none, ◌∷◌, false, All-append, true, suc,
  [], refl, if◌then◌else◌, string_eq, Bool-cases, inl, map, inr, Option-cases, keep, ◌+◌,
}

-- A supplier and a bucket that are known, and an amount above zero.
abbrev pub IsFit : List String → List String → CashSpendEntry → Type 0
IsFit known_suppliers known_buckets entry =
    (member entry.supplier_id known_suppliers ≡ true)
    × ((member entry.bucket_id known_buckets ≡ true) × (at_most entry.amount zero_money ≡ false))

abbrev Fit : List String → List String → RowParse → Type 0
Fit known_suppliers known_buckets (refused problem) = Unit
Fit known_suppliers known_buckets (accepted entry) = IsFit known_suppliers known_buckets entry

module _ (text : Reading) (known_suppliers known_buckets : List String) where
  unless :
      (b : Bool) (problem : Problem) (later : RowParse)
      → (b ≡ false → Fit known_suppliers known_buckets later)
      → Fit known_suppliers known_buckets (if b then refused problem else later)
  unless true problem later h = tt
  unless false problem later h = h refl

  with_vat-Fit :
      (entry : CashSpendEntry) (vat_str : String) (vat : Option Bool)
      → IsFit known_suppliers known_buckets entry
      → Fit known_suppliers known_buckets (with_vat text entry vat_str vat)
  with_vat-Fit entry vat_str none h = tt
  with_vat-Fit entry vat_str (some vat) h = h

  with_amount-Fit :
      (entry : CashSpendEntry) (amount_str vat_str : String) (amount : Option Decimal)
      → member entry.supplier_id known_suppliers ≡ true
      → member entry.bucket_id known_buckets ≡ true
      → Fit known_suppliers known_buckets (with_amount text entry amount_str vat_str amount)
  unfolding with_amount
  with_amount-Fit entry amount_str vat_str none s b = tt
  with_amount-Fit entry amount_str vat_str (some amount) s b =
      unless (at_most amount zero_money) (amount_not_positive amount_str)
        (with_vat text (record entry { amount = amount }) vat_str
          (parse_vat_default_false text vat_str))
        (λ positive.
          with_vat-Fit (record entry { amount = amount }) vat_str
            (parse_vat_default_false text vat_str) (s, (b, positive)))

  with_date-Fit :
      (d : Option Date) (problem : Problem) (later : Date → RowParse)
      → ((x : Date) → Fit known_suppliers known_buckets (later x))
      → Fit known_suppliers known_buckets
          (elim d as (λ _. RowParse) [ none ↦ refused problem | some x ↦ later x ])
  with_date-Fit none problem later h = tt
  with_date-Fit (some x) problem later h = h x

  of_not : (b : Bool) → not b ≡ false → b ≡ true
  of_not true h = refl
  of_not false h = absurd (cc)

  parse_entry_row-Fit :
      (cell : String → String)
      → Fit known_suppliers known_buckets (parse_entry_row text known_suppliers known_buckets cell)
  unfolding parse_entry_row
  parse_entry_row-Fit cell = unless (cell "date" =? "") _ _ (λ _.
      unless (cell "supplier_id" =? "") _ _ (λ _. unless (cell "bucket_id" =? "") _ _ (λ _.
        unless (cell "amount" =? "") _ _ (λ _.
          unless (not (member (cell "supplier_id") known_suppliers)) _ _ (λ s.
            unless (not (member (cell "bucket_id") known_buckets)) _ _ (λ b.
              with_date-Fit (text.date_of (cell "date")) _ _ (λ x.
                with_amount-Fit _ (cell "amount") (cell "vat_inclusive")
                  (text.decimal_of (cell "amount"))
                  (of_not (member (cell "supplier_id") known_suppliers) s)
                  (of_not (member (cell "bucket_id") known_buckets) b))))))))

  abbrev RowsFit : ImportState → Type 0
  RowsFit state = All (λ r. IsFit known_suppliers known_buckets r.entry) state.new_rows

  module _ (retired_buckets : List String) (ledger_keys : List RowKey) where
    take_row-RowsFit :
        (row_number : ℕ) (row : RowParse) (state : ImportState)
        → Fit known_suppliers known_buckets row
        → RowsFit state
        → RowsFit (
            take_row text known_suppliers known_buckets retired_buckets ledger_keys row_number row
              state)
    unfolding take_row
    take_row-RowsFit row_number (refused problem) state fit ok = ok
    take_row-RowsFit row_number (accepted entry) state fit ok =
        All-append (λ r. IsFit known_suppliers known_buckets r.entry) state.new_rows
          (record { row_number = row_number; entry = entry } ∷ []) ok (fit, tt)

    read_row-RowsFit :
        (header : List String) (row_number : ℕ) (cells : List String) (state : ImportState)
        → RowsFit state
        → RowsFit (
            read_row text known_suppliers known_buckets retired_buckets ledger_keys header
              row_number cells state)
    unfolding read_row
    read_row-RowsFit header row_number cells state ok =
        elim (Bool-cases
          (is_skipped text known_suppliers known_buckets retired_buckets ledger_keys cells)) [
            | inl skipped ↦ rw (read_row, skipped) ok
            | inr kept ↦
                rw (read_row, kept)
                  (take_row-RowsFit row_number
                    (parse_entry_row text known_suppliers known_buckets (
                      cell_at text known_suppliers known_buckets retired_buckets ledger_keys header
                        cells))
                    state
                    (parse_entry_row-Fit (
                      cell_at text known_suppliers known_buckets retired_buckets ledger_keys header
                        cells))
                    ok)
          ]

    read_rows-RowsFit :
        (header : List String) (row_number : ℕ) (rows : List (List String)) (state : ImportState)
        → RowsFit state
        → RowsFit (
            read_rows text known_suppliers known_buckets retired_buckets ledger_keys header
              row_number rows state)
    unfolding read_rows
    read_rows-RowsFit header row_number [] state ok = ok
    read_rows-RowsFit header row_number (cells ∷ rows) state ok =
        read_rows-RowsFit header (suc row_number) rows
          (read_row text known_suppliers known_buckets retired_buckets ledger_keys header row_number
            cells state)
          (read_row-RowsFit header row_number cells state ok)

or_errors :
    (text : Reading) (P : ImportRow → Type 0) (errors : List RowError) (preview : ImportPreview)
    → All P preview.new_rows
    → All P
        (elim errors as (λ _. ImportPreview) [
          | e ∷ more ↦ only_errors text (e ∷ more)
          | [] ↦ preview
        ]).new_rows
or_errors text P [] preview h = h
or_errors text P (e ∷ more) preview h = tt

after_header-IsFit :
    (text : Reading) (suppliers : List Supplier) (buckets : List SpendBucket)
    (existing_rows : List CashSpendEntry) (i : ℕ) (header : List String)
    (entries : List (List String))
    → All
        (λ r. IsFit (map (λ s. s.supplier_id) suppliers) (map (λ b. b.bucket_id) buckets) r.entry)
        (after_header text suppliers buckets existing_rows i header entries).new_rows
unfolding after_header
after_header-IsFit text suppliers buckets existing_rows i header entries =
    let known_suppliers = map (λ s. s.supplier_id) suppliers in
    let known_buckets = map (λ b. b.bucket_id) buckets in
    let retired_buckets = map (λ b. b.bucket_id) (keep (is_retired text) buckets) in
    or_errors text (λ r. IsFit known_suppliers known_buckets r.entry)
      (missing_columns text i header)
      (preview_of text (
        read_rows text known_suppliers known_buckets retired_buckets (map key_of existing_rows)
          header (i + 2) entries nothing_read))
      (read_rows-RowsFit text known_suppliers known_buckets retired_buckets
        (map key_of existing_rows) header (i + 2) entries nothing_read tt)

-- Every row that an import would add names a supplier and a bucket that are known, retired or not,
-- and has an amount above zero, whatever the file holds.
pub parse_import-IsFit :
    (text : Reading) (rows : List (List String)) (suppliers : List Supplier)
    (buckets : List SpendBucket) (existing_rows : List CashSpendEntry)
    → All
        (λ r. IsFit (map (λ s. s.supplier_id) suppliers) (map (λ b. b.bucket_id) buckets) r.entry)
        (parse_import text rows suppliers buckets existing_rows).new_rows
unfolding parse_import
parse_import-IsFit text [] suppliers buckets existing_rows = tt
parse_import-IsFit text (first ∷ rows) suppliers buckets existing_rows =
    elim (Option-cases (find_header text 0 (first ∷ rows))) [
      | inl missing ↦ rw (parse_import, missing) tt
      | inr ((i, (header, entries)), found) ↦
          rw (parse_import, found)
            (after_header-IsFit text suppliers buckets existing_rows i (map text.strip header)
              entries)
    ]
