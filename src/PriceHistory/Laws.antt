-- ===== src/PriceHistory/Laws.antt =====
-- What a past date's prices of price_history.py are, and that later edits leave them alone.
use accounting_tool.PriceHistory.Latest.{latest, governing_change_lem}
use accounting_tool.Decimal.{Money}
use accounting_tool.Prelude.Dict.{lookup, lookup-insert}
use accounting_tool.Calendar.{Date}
use accounting_tool.Cost.{CostBook, price}
use accounting_tool.PriceHistory.{
  price_as_of, new_history, PriceChange, first_changes, set_first, price_from,
}
use accounting_tool.Prelude.{
  String, List, ◌=?◌, Option, none, ◌≡◌, ◌∷◌, false, some, true, Bool-cases, [], if◌then◌else◌,
  string_eq, inl, Option-cases, eq_sound, refl, subst, inr, ◌∙◌, ap, sym, ap₂, arith,
}

-- The first change recorded for the SKU.
abbrev pub first_recorded : String → List PriceChange → Option PriceChange
first_recorded sku_id [] = none
first_recorded sku_id (c ∷ log) = if sku_id =? c.sku_id then some c else first_recorded sku_id log

-- The price on a date, read off the log: the new price of the change that governs the date, and
-- before every change what was there, or is, or first became known.
abbrev pub price_on : CostBook → List PriceChange → String → Date → Option Money
price_on current log sku_id on_date =
    price_from (price current sku_id) (latest sku_id on_date log) (first_recorded sku_id log)

set_first_keeps :
    (sku_id : String) (b : PriceChange) (d : List (String × PriceChange)) (c : PriceChange)
    → lookup sku_id d ≡ some c
    → lookup sku_id (set_first b d) ≡ some c
set_first_keeps sku_id b d c h = elim (Option-cases (lookup b.sku_id d)) [
  | inr (w, q) ↦ rw (set_first, q) h
  | inl q ↦ elim (Bool-cases (sku_id =? b.sku_id)) [
    | inl same_key ↦
        let e = ap (λ k. lookup k d) (eq_sound sku_id b.sku_id same_key) in
        let bad : some c ≡ none = sym h ∙ e ∙ q in absurd (ground arith)
    | inr other ↦ rw (set_first, q) (lookup-insert b.sku_id sku_id b d ∙ rw other h)
  ]
]

set_first_mine :
    (sku_id : String) (c : PriceChange) (d : List (String × PriceChange))
    → (sku_id =? c.sku_id) ≡ true
    → lookup sku_id d ≡ none
    → lookup sku_id (set_first c d) ≡ some c
set_first_mine sku_id c d mine h =
    let e = eq_sound sku_id c.sku_id mine in
    let absent = subst (λ (k : String). lookup k d ≡ none) e h in
    rw (set_first, absent) (lookup-insert c.sku_id sku_id c d ∙ rw mine refl)

set_first_other :
    (sku_id : String) (c : PriceChange) (d : List (String × PriceChange))
    → (sku_id =? c.sku_id) ≡ false
    → lookup sku_id d ≡ none
    → lookup sku_id (set_first c d) ≡ none
set_first_other sku_id c d other h = elim (Option-cases (lookup c.sku_id d)) [
  | inl q ↦ rw (set_first, q) (lookup-insert c.sku_id sku_id c d ∙ rw other h)
  | inr (w, q) ↦ rw (set_first, q) h
]

first_changes_keeps :
    (sku_id : String) (log : List PriceChange) (d : List (String × PriceChange)) (c : PriceChange)
    → lookup sku_id d ≡ some c
    → lookup sku_id (first_changes log d) ≡ some c
first_changes_keeps sku_id [] d c h = h
first_changes_keeps sku_id (b ∷ log) d c h =
    first_changes_keeps sku_id log (set_first b d) c (set_first_keeps sku_id b d c h)

first_changes_lem :
    (sku_id : String) (log : List PriceChange) (d : List (String × PriceChange))
    → lookup sku_id d ≡ none
    → lookup sku_id (first_changes log d) ≡ first_recorded sku_id log
first_changes_lem sku_id [] d h = h
first_changes_lem sku_id (c ∷ log) d h = elim (Bool-cases (sku_id =? c.sku_id)) [
  | inl mine ↦
      rw mine (first_changes_keeps sku_id log (set_first c d) c (set_first_mine sku_id c d mine h))
  | inr other ↦
      rw other (first_changes_lem sku_id log (set_first c d) (set_first_other sku_id c d other h))
]

-- `price_as_of` reads the log as it was recorded: sorting it and splitting it by SKU into dicts,
-- and the dict of first changes, come to the price that the log itself gives for the date.
pub price_as_of_lem :
    (current : CostBook) (log : List PriceChange) (sku_id : String) (on_date : Date)
    → price_as_of (new_history current log) sku_id on_date ≡ price_on current log sku_id on_date
unfolding price_as_of new_history
price_as_of_lem current log sku_id on_date =
    ap₂ (price_from (price current sku_id)) (governing_change_lem current log sku_id on_date)
      (first_changes_lem sku_id log [] refl)
