-- ===== src/PriceHistory.antt =====
-- price_history.py: the price of a SKU on a past date, from the log of cost edits.
pub mod Latest
pub mod Laws
pub mod Past
mod Tests
use accounting_tool.Decimal.{Money}
use accounting_tool.Prelude.Sort.{sort}
use accounting_tool.Prelude.Dict.{contains, lookup, insert, get_or}
use accounting_tool.Cost.{CostBook, SkuPrice, price}
use accounting_tool.Calendar.{Date, before, not_after}
use accounting_tool.Prelude.{
  ℕ, Option, List, String, Bool, [], ◌∷◌, none, some, string_eq, ◌++◌, ◌||◌, if◌then◌else◌,
}

pub record PriceChange : Type 0 where
  pub sku_id : String
  pub changed_on : Date
  pub old_price : Option Money
  pub new_price : Option Money

pub record PriceHistory : Type 0 where
  pub current : CostBook
  pub changes_by_sku : List (String × List PriceChange)
  pub first_change_by_sku : List (String × PriceChange)

-- The first loop of the constructor, `setdefault` with the change itself.
abbrev pub set_first : PriceChange → List (String × PriceChange) → List (String × PriceChange)
set_first change first = elim (lookup change.sku_id first) [
  | none ↦ insert change.sku_id change first
  | some _ ↦ first
]

abbrev pub first_changes :
    List PriceChange → List (String × PriceChange) → List (String × PriceChange)
first_changes [] first = first
first_changes (change ∷ changes) first = first_changes changes (set_first change first)

abbrev pub changed_before : PriceChange → PriceChange → Bool
changed_before a b = before a.changed_on b.changed_on

-- The second loop, `setdefault` with a new list and `append`.
abbrev pub add_change :
    PriceChange → List (String × List PriceChange) → List (String × List PriceChange)
add_change change by_sku =
    insert change.sku_id (get_or change.sku_id [] by_sku ++ (change ∷ [])) by_sku

abbrev pub add_changes :
    List PriceChange → List (String × List PriceChange) → List (String × List PriceChange)
add_changes [] by_sku = by_sku
add_changes (change ∷ changes) by_sku = add_changes changes (add_change change by_sku)

-- `PriceHistory.__init__`
unfoldable pub new_history : CostBook → List PriceChange → PriceHistory
new_history current changes = record {
  current = current;
  changes_by_sku = add_changes (sort changed_before changes) [];
  first_change_by_sku = first_changes changes [];
}

-- The loop of `_governing_change`, from the change that governs so far.
abbrev pub last_change : Date → List PriceChange → Option PriceChange → Option PriceChange
last_change on_date [] governing = governing
last_change on_date (change ∷ changes) governing =
    last_change on_date changes
      (if not_after change.changed_on on_date then some change else governing)

unfoldable pub governing_change : PriceHistory → String → Date → Option PriceChange
governing_change history sku_id on_date =
    last_change on_date (get_or sku_id [] history.changes_by_sku) none

-- Before every recorded change.
unfoldable pub price_before_changes : Option SkuPrice → Option PriceChange → Option Money
price_before_changes entry none = elim entry [ none ↦ none | some e ↦ some e.price ]
price_before_changes entry (some first) = elim first.old_price [
  | some old_price ↦ some old_price
  | none ↦ elim entry [ none ↦ none | some _ ↦ first.new_price ]
]

abbrev pub price_from : Option SkuPrice → Option PriceChange → Option PriceChange → Option Money
price_from entry (some governing) first = governing.new_price
price_from entry none first = price_before_changes entry first

unfoldable pub price_as_of : PriceHistory → String → Date → Option Money
unfolding governing_change
price_as_of history sku_id on_date =
    price_from (price history.current sku_id) (governing_change history sku_id on_date)
      (lookup sku_id history.first_change_by_sku)

-- The date of the entry in the book, or `on_date` where the book has none.
abbrev pub entry_date : Option SkuPrice → Date → Date
entry_date none on_date = on_date
entry_date (some entry) on_date = entry.updated_at

unfoldable pub date_before_changes : Option SkuPrice → Option PriceChange → Date → Date
date_before_changes entry none on_date = entry_date entry on_date
date_before_changes entry (some first) on_date = elim first.old_price [
  | none ↦ first.changed_on
  | some _ ↦ entry_date entry on_date
]

unfoldable pub effective_date : PriceHistory → String → Date → Date
unfolding date_before_changes governing_change
effective_date history sku_id on_date = elim (governing_change history sku_id on_date) [
  | some governing ↦ governing.changed_on
  | none ↦
      date_before_changes (price history.current sku_id) (lookup sku_id history.first_change_by_sku)
        on_date
]

-- The body of the loop in `cost_book_as_of`.
unfoldable pub freeze_price : PriceHistory → Date → String → CostBook → CostBook
unfolding price_as_of effective_date
freeze_price history on_date sku_id prices = elim (price_as_of history sku_id on_date) [
  | none ↦ prices
  | some p ↦
      insert sku_id (record { price = p; updated_at = effective_date history sku_id on_date })
        prices
]

abbrev pub freeze_prices : PriceHistory → Date → List String → CostBook → CostBook
freeze_prices history on_date [] prices = prices
freeze_prices history on_date (sku_id ∷ sku_ids) prices =
    freeze_prices history on_date sku_ids (freeze_price history on_date sku_id prices)

-- The set of the ids is gone through in the order `sku_ids`, which Python does not fix.
unfoldable pub cost_book_as_of : PriceHistory → List String → Date → CostBook
unfolding freeze_price
cost_book_as_of history sku_ids on_date = freeze_prices history on_date sku_ids []

-- `set(self._current.sku_ids()) | set(self._changes_by_sku)`
abbrev pub is_known_sku : PriceHistory → String → Bool
is_known_sku history sku_id =
    contains sku_id history.current || contains sku_id history.changes_by_sku
