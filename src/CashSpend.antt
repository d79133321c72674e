-- ===== src/CashSpend.antt =====
-- cash_spend.py: cash purchases of a range of days, net of VAT, by bucket.
pub mod Laws
mod Tests
use accounting_tool.Prelude.Dict.{get_or, insert}
use accounting_tool.Decimal.{Money, fraction, plus, quantize, quotient, total, zero_money}
use accounting_tool.Calendar.{Date, not_after}
use accounting_tool.Prelude.{
  ℕ, if◌then◌else◌, String, Bool, List, not, [], ◌∷◌, ◌&&◌, map, string_eq,
}

abbrev pub vat_rate : Money
vat_rate = fraction 107 2

pub record CashSpendEntry : Type 0 where
  pub row_id : ℕ
  pub date : Date
  pub supplier_id : String
  pub description : String
  pub bucket_id : String
  pub amount : Money
  pub vat_inclusive : Bool

pub record CashSpendForPeriod : Type 0 where
  pub total_spend : Money
  pub by_bucket : List (String × Money)

unfoldable pub net_of_vat : CashSpendEntry → Money
net_of_vat entry = if not entry.vat_inclusive then entry.amount else quotient entry.amount vat_rate

abbrev pub in_range : Date → Date → Date → Bool
in_range start stop day = not_after start day && not_after day stop

-- The body of the loop over the rows.
unfoldable pub add_entry :
    Date → Date → CashSpendEntry → List (String × Money) → List (String × Money)
add_entry start stop entry by_bucket =
    if not (in_range start stop entry.date)
    then by_bucket
    else let accumulated = plus (get_or entry.bucket_id zero_money by_bucket) (net_of_vat entry) in
      insert entry.bucket_id (quantize 2 accumulated) by_bucket

unfoldable pub add_entries :
    Date → Date → List CashSpendEntry → List (String × Money) → List (String × Money)
add_entries start stop [] by_bucket = by_bucket
add_entries start stop (entry ∷ entries) by_bucket =
    add_entries start stop entries (add_entry start stop entry by_bucket)

unfoldable pub cash_spend_for_period : Date → Date → List CashSpendEntry → CashSpendForPeriod
cash_spend_for_period start stop entries =
    let by_bucket = add_entries start stop entries [] in
    record { total_spend = quantize 2 (total (map (λ p. p.1) by_bucket)); by_bucket = by_bucket }
