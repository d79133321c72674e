-- ===== src/PriceHistory/Tests.antt =====
-- The theorems about price_history.py at a log with a backdated correction.
use accounting_tool.Prelude.Dict.{insert, contains, lookup}
use accounting_tool.PriceHistory.Laws.{price_on, price_as_of_lem}
use accounting_tool.PriceHistory.Past.{IsOrder, price_as_of-repriced, value_of, cost_book_as_of_lem}
use accounting_tool.Decimal.{Money, whole}
use accounting_tool.Cost.{CostBook, price}
use accounting_tool.Calendar.{before, Date}
use accounting_tool.PriceHistory.{
  new_history, price_as_of, PriceChange, governing_change, price_before_changes, is_known_sku,
  cost_book_as_of,
}
use accounting_tool.Prelude.{
  ℕ, List, some, Option, ◌≡◌, ◌∷◌, true, refl, [], map, ◌++◌, Bool-cases, ◌=?◌, inl, inr, string_eq,
  String, any, subst, sym, eq_sound,
}

abbrev day : ℕ → Date
day d = record { year = 2026; month = 5; day = d }

abbrev change : ℕ → Option Money → Money → PriceChange
change d old new = record {
  sku_id = "milk";
  changed_on = day d;
  old_price = old;
  new_price = some new;
}

-- The second entry is a correction that takes effect before the first.
abbrev log : List PriceChange
log = change 10 (some (whole 49)) (whole 52) ∷ change 5 (some (whole 52)) (whole 50) ∷ []

abbrev book : CostBook
book =
    ("milk", record { price = whole 52; updated_at = day 10 })
    ∷ ("beans", record { price = whole 9; updated_at = day 1 })
    ∷ []

prices :
    map (λ d. price_as_of (new_history book log) "milk" (day d)) (1 ∷ 5 ∷ 9 ∷ 10 ∷ [])
    ≡ some (whole 49) ∷ some (whole 50) ∷ some (whole 50) ∷ some (whole 52) ∷ []
unfolding price_as_of governing_change new_history price_before_changes before
prices = refl

price_as_of_lem_example :
    price_as_of (new_history book log) "milk" (day 7) ≡ price_on book log "milk" (day 7)
price_as_of_lem_example = price_as_of_lem book log "milk" (day 7)

later : before (day 7) (day 20) ≡ true
unfolding before
later = refl

price_as_of-repriced_example :
    let c = change 20 (some (whole 52)) (whole 60) in
    price_as_of
      (new_history
        (insert "milk" (record { price = whole 60; updated_at = day 20 }) book)
        (log ++ (c ∷ [])))
      "milk"
      (day 7)
    ≡ price_as_of (new_history book log) "milk" (day 7)
price_as_of-repriced_example =
    price_as_of-repriced book log (change 20 (some (whole 52)) (whole 60))
      (record { price = whole 52; updated_at = day 10 }) (whole 60) "milk" (day 7) refl refl later

abbrev IsSame : String → Type 0
IsSame k = any (λ j. k =? j) ("milk" ∷ "beans" ∷ []) ≡ is_known_sku (new_history book log) k

complete : IsOrder (new_history book log) ("milk" ∷ "beans" ∷ [])
unfolding new_history before
complete k = elim (Bool-cases (k =? "milk")) [
  | inl e ↦ subst (λ (j : String). IsSame j) (sym (eq_sound k "milk" e)) refl
  | inr other ↦ elim (Bool-cases (k =? "beans")) [
    | inl e ↦ subst (λ (j : String). IsSame j) (sym (eq_sound k "beans" e)) refl
    | inr neither ↦ rw (other, is_known_sku, contains, lookup, neither) refl
  ]
]

frozen_milk :
    value_of (price (cost_book_as_of (new_history book log) ("milk" ∷ "beans" ∷ []) (day 7)) "milk")
    ≡ price_as_of (new_history book log) "milk" (day 7)
frozen_milk = cost_book_as_of_lem book log ("milk" ∷ "beans" ∷ []) "milk" (day 7) complete
