-- ===== src/Loyverse/Store/Tests.antt =====
-- The theorems about loyverse/store.py at a small venue.
use accounting_tool.Prelude.Dict.{contains, lookup}
use accounting_tool.Loyverse.Store.History.{history-replay, with_menu, fresh}
use accounting_tool.Types.{cafe}
use accounting_tool.Loyverse.Store.Sales.{record_sales-replay}
use accounting_tool.Prelude.Int.{pos, ◌*ℤ◌}
use accounting_tool.Decimal.{whole, same}
use accounting_tool.Calendar.{DateTime, Date}
use accounting_tool.Loyverse.Store.Menu.{name_after, IsDifference, menu_name}
use accounting_tool.Loyverse.Store.{
  MenuSnapshot, LoyverseStore, record_menu_snapshot, record_sales, record_sale, diff_menu,
  SaleRecord, MenuItem, empty_store, menu_dict, incoming_changes, item_changes, gone_changes,
  gone_change, added, price_change, renamed, discontinued,
}
use accounting_tool.Prelude.{
  ℕ, List, String, [], none, ◌∷◌, length, ◌≡◌, refl, string_eq, inr, some, inl, map, any,
  Bool-cases, ◌=?◌, subst, sym, ◌&&◌, not, eq_sound,
}

abbrev day : Date
day = record { year = 2026; month = 5; day = 1 }

abbrev morning : DateTime
morning = record { date = day; hour = 9; minute = 0; micros = 0 }

abbrev sold : String → String → SaleRecord
sold receipt line = record {
  sale = record {
    item_id = "latte";
    timestamp = day;
    sell_price = whole 90;
    quantity = pos 1;
    segment = some cafe;
  };
  receipt_number = receipt;
  line_id = line;
  created_at_utc = none;
}

-- Two sales alike in all but the line are both kept.
both_kept :
    length
      (record_sales
        (sold "1-1" "a" ∷ sold "1-1" "b" ∷ sold "1-1" "a" ∷ [])
        empty_store).stored_sales
    ≡ 2
unfolding record_sales record_sale
both_kept = refl

record_sales-replay_example :
    let first : List SaleRecord = sold "1-1" "a" ∷ sold "1-1" "b" ∷ [] in
    let again : List SaleRecord = sold "1-1" "b" ∷ sold "1-1" "b" ∷ [] in
    record_sales again (record_sales first empty_store) ≡ record_sales first empty_store
record_sales-replay_example =
    record_sales-replay (sold "1-1" "a" ∷ sold "1-1" "b" ∷ [])
      (sold "1-1" "b" ∷ sold "1-1" "b" ∷ []) empty_store (inr (inl refl), (inr (inl refl), tt))

abbrev item : String → String → ℕ → MenuItem
item id name price = record { item_id = id; name = name; sell_price = whole price; segment = cafe }

abbrev monday : MenuSnapshot
monday = item "latte" "Latte" 90 ∷ item "mocha" "Mocha" 95 ∷ []

abbrev tuesday : MenuSnapshot
tuesday = item "latte" "Latte XL" 99 ∷ []

abbrev opened : LoyverseStore
opened = record_menu_snapshot monday [] morning empty_store

abbrev repriced : LoyverseStore
repriced = record_menu_snapshot tuesday ("mocha" ∷ []) morning opened

opened-IsDifference : IsDifference [] empty_store.menu (menu_dict monday)
opened-IsDifference k = refl

abbrev IsSame : String → Type 0
IsSame k =
    any (λ j. k =? j) ("mocha" ∷ [])
    ≡ (contains k opened.menu && not (contains k (menu_dict tuesday)))

repriced-IsDifference : IsDifference ("mocha" ∷ []) opened.menu (menu_dict tuesday)
unfolding record_menu_snapshot
repriced-IsDifference k = elim (Bool-cases (k =? "mocha")) [
  | inl e ↦ subst (λ (j : String). IsSame j) (sym (eq_sound k "mocha" e)) refl
  | inr other ↦ elim (Bool-cases (k =? "latte")) [
    | inl e ↦ subst (λ (j : String). IsSame j) (sym (eq_sound k "latte" e)) refl
    | inr neither ↦ rw (other, contains, lookup, neither) refl
  ]
]

kinds :
    map (λ c. c.change_kind) repriced.history
    ≡ added ∷ added ∷ price_change ∷ renamed ∷ discontinued ∷ []
unfolding record_menu_snapshot diff_menu incoming_changes item_changes gone_changes gone_change same
    ◌*ℤ◌
kinds = refl

history-replay_example : name_after "latte" repriced.history none ≡ menu_name "latte" repriced.menu
history-replay_example = history-replay repriced "latte" (
    with_menu opened tuesday ("mocha" ∷ []) morning
      (with_menu empty_store monday [] morning fresh opened-IsDifference) repriced-IsDifference)
