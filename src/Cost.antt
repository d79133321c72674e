-- ===== src/Cost.antt =====
-- cost.py: the current price of a SKU, whoever supplied it.
pub mod Laws
mod Tests
use accounting_tool.Prelude.Text.{str_before}
use accounting_tool.Prelude.Sort.{sort}
use accounting_tool.Prelude.{
  string_eq, String, Bool, Option, none, some, List, [], ◌∷◌, if◌then◌else◌,
}
use accounting_tool.Prelude.Dict.{lookup, insert, keys}
use accounting_tool.Decimal.{Money, zero_money}
use accounting_tool.Calendar.{Date, not_after}
use accounting_tool.Approvals.{ApprovalBook, last_known_price}

pub record SkuPrice : Type 0 where
  pub price : Money
  pub updated_at : Date

abbrev pub CostBook : Type 0
CostBook = List (String × SkuPrice)

-- `CostBook.price`
abbrev pub price : CostBook → String → Option SkuPrice
price book sku_id = lookup sku_id book

-- `current is None or updated_at >= current.updated_at`
abbrev pub replaces : Option SkuPrice → Date → Bool
replaces none updated_at = Bool.true
replaces (some current) updated_at = not_after current.updated_at updated_at

-- The body of the loop in `from_book`, for the entry that was found.
unfoldable pub take_price : String → CostBook → Option (Money × Date) → CostBook
take_price sku_id latest none = latest
take_price sku_id latest (some (paid, updated_at)) =
    if replaces (lookup sku_id latest) updated_at
    then insert sku_id (record { price = paid; updated_at = updated_at }) latest
    else latest

unfoldable pub take_entry : ApprovalBook → String × String → CostBook → CostBook
take_entry book (sku_id, supplier_id) latest =
    take_price sku_id latest (last_known_price book sku_id supplier_id)

unfoldable pub take_entries : ApprovalBook → List (String × String) → CostBook → CostBook
take_entries book [] latest = latest
take_entries book (key ∷ keys) latest = take_entries book keys (take_entry book key latest)

-- `from_book` goes through the set `price_keys()` in the order `order`, which Python does not fix.
unfoldable pub from_book : ApprovalBook → List (String × String) → CostBook
unfolding take_entries
from_book book order = take_entries book order []

-- `sorted(self._prices)`
unfoldable pub sku_ids : CostBook → List String
sku_ids book = sort str_before (keys book)

unfoldable pub cost_per_unit : CostBook → String → Money
cost_per_unit book sku_id = elim (lookup sku_id book) [
  | none ↦ zero_money
  | some entry ↦ entry.price
]
