-- ===== src/Loyverse/Store/History.antt =====
-- The history of the syncs of loyverse/store.py as an audit of the menu.
use accounting_tool.Prelude.Dict.{insert_all-IsUnique}
use accounting_tool.Calendar.{DateTime}
use accounting_tool.Loyverse.Store.Menu.{
  name_after, menu_name, IsDifference, name_after-append, diff_menu-replay,
}
use accounting_tool.Loyverse.Store.{
  record_menu_snapshot, record_sales, LoyverseStore, record_sale, empty_store, MenuSnapshot,
  SaleRecord, menu_dict, diff_menu,
}
use accounting_tool.Prelude.{
  String, List, ◌≡◌, none, arith, ◌∷◌, [], ap, string_eq, ◌∙◌, sym, refl, map,
}

-- The states that syncs reach from the empty store: each step records sales or a menu, the latter
-- with the discontinued ids in whichever order the set gave them.
pub data Synced : LoyverseStore → Type 0 where
  fresh : Synced empty_store
  with_sales :
      (store : LoyverseStore) (records : List SaleRecord)
      → Synced store
      → Synced (record_sales records store)
  with_menu :
      (store : LoyverseStore) (snapshot : MenuSnapshot) (gone : List String) (at_time : DateTime)
      → Synced store
      → IsDifference gone store.menu (menu_dict snapshot)
      → Synced (record_menu_snapshot snapshot gone at_time store)

record_sale-history :
    (rec : SaleRecord) (store : LoyverseStore)
    → ((record_sale rec store).history ≡ store.history)
      × ((record_sale rec store).menu ≡ store.menu)
unfolding record_sale
record_sale-history rec store = (ground arith, ground arith)

-- Sales do not touch the menu side of the store.
record_sales-history :
    (records : List SaleRecord) (store : LoyverseStore)
    → ((record_sales records store).history ≡ store.history)
      × ((record_sales records store).menu ≡ store.menu)
unfolding record_sales
record_sales-history [] store = (refl, refl)
record_sales-history (rec ∷ records) store =
    let first = record_sale-history rec store in
    let rest = record_sales-history records (record_sale rec store) in
    (rest.0 ∙ first.0, rest.1 ∙ first.1)

-- One snapshot carries an audited menu to an audited menu.
snapshot_step :
    (store : LoyverseStore) (snapshot : MenuSnapshot) (gone : List String) (at_time : DateTime)
    (k : String)
    → IsDifference gone store.menu (menu_dict snapshot)
    → name_after k store.history none ≡ menu_name k store.menu
    → name_after k (record_menu_snapshot snapshot gone at_time store).history none
      ≡ menu_name k (menu_dict snapshot)
unfolding record_menu_snapshot
snapshot_step store snapshot gone at_time k difference audited =
    name_after-append k store.history (diff_menu store.menu (menu_dict snapshot) gone at_time) none
    ∙ ap (name_after k (diff_menu store.menu (menu_dict snapshot) gone at_time)) audited
    ∙ diff_menu-replay store.menu (menu_dict snapshot) gone at_time k
        (insert_all-IsUnique (map (λ mi. (mi.item_id, mi)) snapshot) [] tt) difference

-- In every state that syncs reach, the recorded history is an audit of the menu: replayed from an
-- empty menu it gives each item the name that the current menu has for it, and none to an item
-- that the menu does not have.
pub history-replay :
    (store : LoyverseStore) (k : String)
    → Synced store
    → name_after k store.history none ≡ menu_name k store.menu
unfolding record_menu_snapshot
history-replay _ k fresh = refl
history-replay _ k (with_sales store records s) =
    let same_menu = record_sales-history records store in
    ap (λ changes. name_after k changes none) same_menu.0
    ∙ history-replay store k s
    ∙ ap (menu_name k) (sym same_menu.1)
history-replay _ k (with_menu store snapshot gone at_time s difference) =
    snapshot_step store snapshot gone at_time k difference (history-replay store k s)
