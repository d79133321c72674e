-- ===== src/CashSpendCsv.antt =====
-- cash_spend_csv.py: what an uploaded file of cash purchases would add, and what stops it. The
-- rows are those that csv.reader gives.
pub mod Invoices
pub mod Rows
mod Tests
use text.Mathlib.Text.{starts_with}
use accounting_tool.Prelude.Dict.{get_or, insert}
use accounting_tool.Calendar.{Date, date_eq}
use accounting_tool.CashSpend.{CashSpendEntry}
use accounting_tool.Decimal.{less, plus, Decimal, same, zero_money, at_most}
use accounting_tool.Prelude.{
  ℕ, String, Bool, List, [], false, if◌then◌else◌, none, ◌∷◌, any, map, Option, true, keep, ◌++◌,
  some, suc, ◌+◌, ◌=?◌, not, ◌&&◌, string_eq, ◌||◌, pair_eq,
}

-- What the code uses of Python's text: `str.strip`, `str.lower`, `date.fromisoformat` and the
-- constructor of Decimal, the last two with nothing where they raise.
pub record Reading : Type 0 where
  pub strip : String → String
  pub lower : String → String
  pub date_of : String → Option Date
  pub decimal_of : String → Option Decimal

pub record Supplier : Type 0 where
  pub supplier_id : String
  pub name : String

pub record SpendBucket : Type 0 where
  pub bucket_id : String
  pub name : String
  pub retired_at : Option String
  pub created_at : String
  pub created_by : String

abbrev pub template_columns : List String
template_columns =
    "kind" ∷ "date" ∷ "supplier_id" ∷ "description" ∷ "bucket_id" ∷ "amount" ∷ "vat_inclusive" ∷ []

pub record ImportRow : Type 0 where
  pub row_number : ℕ
  pub entry : CashSpendEntry

pub record InvoiceGroup : Type 0 where
  pub date : Date
  pub supplier_id : String
  pub sibling_count : ℕ
  pub invoice_total : Decimal

-- The message of an error, with what it quotes.
pub data Problem : Type 0 where
  empty_file no_header : Problem
  missing_column missing_cell unknown_supplier unknown_bucket : String → Problem
  malformed_date malformed_amount amount_not_positive malformed_vat : String → Problem

pub record RowError : Type 0 where
  pub row_number : ℕ
  pub problem : Problem

pub data Doubt : Type 0 where
  repeated_in_file in_ledger : Doubt
  retired_bucket : String → Doubt

pub record RowWarning : Type 0 where
  pub row_number : ℕ
  pub doubt : Doubt

pub record ImportPreview : Type 0 where
  pub new_rows : List ImportRow
  pub invoices : List InvoiceGroup
  pub errors : List RowError
  pub warnings : List RowWarning

abbrev pub has_rows : ImportPreview → Bool
has_rows preview = elim preview.new_rows [ [] ↦ false | _ ∷ _ ↦ true ]

abbrev pub member : String → List String → Bool
member s names = any (λ n. s =? n) names

-- The dicts `totals` and `counts` and the list `order` of `_group_invoices`, which get their keys
-- together, as one dict.
abbrev pub Groups : Type 0
Groups = List ((Date × String) × (ℕ × Decimal))

-- A key that is not there starts at nothing, and goes to the end.
abbrev pub add_to_group : Date × String → Decimal → Groups → Groups
add_to_group key amount [] = (key, (1, plus zero_money amount)) ∷ []
add_to_group key amount ((j, (count, sum)) ∷ groups) =
    if key =? j
    then (j, (suc count, plus sum amount)) ∷ groups
    else (j, (count, sum)) ∷ add_to_group key amount groups

abbrev pub add_invoice : ImportRow → Groups → Groups
add_invoice row groups =
    add_to_group (row.entry.date, row.entry.supplier_id) row.entry.amount groups

abbrev pub add_invoices : List ImportRow → Groups → Groups
add_invoices [] groups = groups
add_invoices (row ∷ rows) groups = add_invoices rows (add_invoice row groups)

abbrev pub invoice_group : (Date × String) × (ℕ × Decimal) → InvoiceGroup
invoice_group ((date, supplier_id), (count, sum)) = record {
  date = date;
  supplier_id = supplier_id;
  sibling_count = count;
  invoice_total = sum;
}

unfoldable pub group_invoices : List ImportRow → List InvoiceGroup
unfolding plus
group_invoices rows = map invoice_group (add_invoices rows [])

-- What a row of cells is read as.
pub data RowParse : Type 0 where
  refused : Problem → RowParse
  accepted : CashSpendEntry → RowParse

-- The key by which rows repeat one another; amounts are compared by value.
abbrev pub RowKey : Type 0
RowKey = Date × (String × Decimal)

abbrev pub key_of : CashSpendEntry → RowKey
key_of entry = (entry.date, (entry.supplier_id, entry.amount))

abbrev pub has_key : RowKey → List RowKey → Bool
has_key (date, (supplier_id, amount)) keys =
    any (λ k. date =? k.0 && (supplier_id =? k.1.0 && same amount k.1.1)) keys

-- What the loop over the rows has gathered.
pub record ImportState : Type 0 where
  pub new_rows : List ImportRow
  pub errors : List RowError
  pub warnings : List RowWarning
  pub seen_in_file : List RowKey

abbrev pub nothing_read : ImportState
nothing_read = record { new_rows = []; errors = []; warnings = []; seen_in_file = [] }

module _ (text : Reading) where
  -- `_parse_vat_default_false`
  unfoldable pub parse_vat_default_false : String → Option Bool
  parse_vat_default_false cell =
      let normalized = text.lower (text.strip cell) in
      if member normalized ("" ∷ "false" ∷ "0" ∷ "no" ∷ "n" ∷ [])
      then some false
      else if member normalized ("true" ∷ "1" ∷ "yes" ∷ "y" ∷ [])
      then some true
      else none

  abbrev pub with_vat : CashSpendEntry → String → Option Bool → RowParse
  with_vat entry vat_str none = refused (malformed_vat vat_str)
  with_vat entry vat_str (some vat) = accepted (record entry { vat_inclusive = vat })

  -- The checks of a row's values, in the order of the source.
  abbrev pub with_amount : CashSpendEntry → String → String → Option Decimal → RowParse
  unfolding parse_vat_default_false less
  with_amount entry amount_str vat_str none = refused (malformed_amount amount_str)
  with_amount entry amount_str vat_str (some amount) =
      if at_most amount zero_money
      then refused (amount_not_positive amount_str)
      else with_vat (record entry { amount = amount }) vat_str (parse_vat_default_false vat_str)

  module _ (known_suppliers known_buckets : List String) where
    -- The cells of a row by their column.
    unfoldable pub parse_entry_row : (String → String) → RowParse
    unfolding less
    parse_entry_row cell =
        if cell "date" =? ""
        then refused (missing_cell "date")
        else if cell "supplier_id" =? ""
        then refused (missing_cell "supplier_id")
        else if cell "bucket_id" =? ""
        then refused (missing_cell "bucket_id")
        else if cell "amount" =? ""
        then refused (missing_cell "amount")
        else if not (member (cell "supplier_id") known_suppliers)
        then refused (unknown_supplier (cell "supplier_id"))
        else if not (member (cell "bucket_id") known_buckets)
        then refused (unknown_bucket (cell "bucket_id"))
        else elim (text.date_of (cell "date")) [
          | none ↦ refused (malformed_date (cell "date"))
          | some parsed_date ↦
              with_amount
                (record {
                  row_id = 0;
                  date = parsed_date;
                  supplier_id = cell "supplier_id";
                  description = cell "description";
                  bucket_id = cell "bucket_id";
                  amount = zero_money;
                  vat_inclusive = false;
                })
                (cell "amount") (cell "vat_inclusive") (text.decimal_of (cell "amount"))
        ]

    module _ (retired_buckets : List String) (ledger_keys : List RowKey) where
      abbrev pub repeat_warnings : ℕ → RowKey → List RowKey → List RowWarning
      repeat_warnings row_number key seen_in_file =
          if has_key key seen_in_file
          then record { row_number = row_number; doubt = repeated_in_file } ∷ []
          else if has_key key ledger_keys
          then record { row_number = row_number; doubt = in_ledger } ∷ []
          else []

      abbrev pub retired_warnings : ℕ → String → List RowWarning
      retired_warnings row_number bucket_id =
          if member bucket_id retired_buckets
          then record { row_number = row_number; doubt = retired_bucket bucket_id } ∷ []
          else []

      -- The end of the loop's body, once the row is read.
      unfoldable pub take_row : ℕ → RowParse → ImportState → ImportState
      unfolding same
      take_row row_number (refused problem) state = record state {
        errors = state.errors ++ (record { row_number = row_number; problem = problem } ∷ []);
      }
      take_row row_number (accepted entry) state =
          let key = key_of entry in
          record {
            new_rows = state.new_rows ++ (record { row_number = row_number; entry = entry } ∷ []);
            errors = state.errors;
            warnings =
                state.warnings
                ++ (repeat_warnings row_number key state.seen_in_file
                    ++ retired_warnings row_number entry.bucket_id);
            seen_in_file = key ∷ state.seen_in_file;
          }

      -- A column's cell: the first column of that name counts, and a short row ends in blanks.
      abbrev pub cell_at : List String → List String → String → String
      cell_at [] cells column = ""
      cell_at (h ∷ header) [] column = ""
      cell_at (h ∷ header) (c ∷ cells) column =
          if column =? h then text.strip c else cell_at header cells column

      -- A row of the reference blocks, or a blank one.
      abbrev pub is_skipped : List String → Bool
      is_skipped [] = true
      is_skipped (first ∷ cells) =
          starts_with (text.strip first) "# vendor"
          || (starts_with (text.strip first) "# bucket"
              || not (any (λ c. not (text.strip c =? "")) (first ∷ cells)))

      unfoldable pub read_row : List String → ℕ → List String → ImportState → ImportState
      unfolding take_row parse_entry_row
      read_row header row_number cells state =
          if is_skipped cells
          then state
          else take_row row_number (parse_entry_row (cell_at header cells)) state

      unfoldable pub read_rows : List String → ℕ → List (List String) → ImportState → ImportState
      unfolding read_row
      read_rows header row_number [] state = state
      read_rows header row_number (cells ∷ rows) state =
          read_rows header (suc row_number) rows (read_row header row_number cells state)

  abbrev pub is_header : List String → Bool
  is_header [] = false
  is_header (first ∷ cells) = text.strip first =? "kind"

  -- `_find_header`: the header, its index, and the rows after it.
  abbrev pub find_header : ℕ → List (List String) → Option (ℕ × (List String × List (List String)))
  find_header i [] = none
  find_header i (cells ∷ rows) =
      if is_header cells then some (i, (cells, rows)) else find_header (suc i) rows

  abbrev pub only_errors : List RowError → ImportPreview
  only_errors errors = record { new_rows = []; invoices = []; errors = errors; warnings = [] }

  abbrev pub preview_of : ImportState → ImportPreview
  unfolding group_invoices
  preview_of state = record {
    new_rows = state.new_rows;
    invoices = group_invoices state.new_rows;
    errors = state.errors;
    warnings = state.warnings;
  }

  abbrev pub is_retired : SpendBucket → Bool
  is_retired b = elim b.retired_at [ none ↦ false | some at ↦ not (at =? "") ]

  abbrev pub missing_columns : ℕ → List String → List RowError
  missing_columns header_index header =
      map (λ column. record { row_number = header_index + 1; problem = missing_column column })
        (keep (λ column. not (member column header)) template_columns)

  abbrev pub after_header :
      List Supplier
      → List SpendBucket
      → List CashSpendEntry
      → ℕ
      → List String
      → List (List String)
      → ImportPreview
  unfolding read_rows group_invoices
  after_header suppliers buckets existing_rows header_index header rows =
      elim (missing_columns header_index header) [
        | e ∷ errors ↦ only_errors (e ∷ errors)
        | [] ↦ preview_of (
            read_rows (map (λ s. s.supplier_id) suppliers) (map (λ b. b.bucket_id) buckets)
              (map (λ b. b.bucket_id) (keep is_retired buckets)) (map key_of existing_rows) header
              (header_index + 2) rows nothing_read)
      ]

  unfoldable pub parse_import :
      List (List String) → List Supplier → List SpendBucket → List CashSpendEntry → ImportPreview
  unfolding after_header
  parse_import [] suppliers buckets existing_rows =
      only_errors (record { row_number = 1; problem = empty_file } ∷ [])
  parse_import (first ∷ rows) suppliers buckets existing_rows =
      elim (find_header 0 (first ∷ rows)) [
        | none ↦ only_errors (record { row_number = 1; problem = no_header } ∷ [])
        | some (i, (header, entries)) ↦
            after_header suppliers buckets existing_rows i (map text.strip header) entries
      ]
