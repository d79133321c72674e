-- ===== src/Loyverse/Store.antt =====
-- loyverse/store.py: the sales and the menu history that a sync records.
pub mod Sales
pub mod Menu
pub mod History
mod Tests
use accounting_tool.Decimal.{same, Money}
use accounting_tool.Types.{Sale, Segment}
use accounting_tool.Prelude.Dict.{insert_all, lookup}
use accounting_tool.Calendar.{DateTime}
use accounting_tool.Prelude.{
  ℕ, [], if◌then◌else◌, String, List, map, ◌++◌, ◌∷◌, Bool, ◌=?◌, Option, any, some, pair_eq, none,
  string_eq,
}

pub record MenuItem : Type 0 where
  pub item_id : String
  pub name : String
  pub sell_price : Money
  pub segment : Segment

-- `created_at_utc` is stored and not read here.
pub record SaleRecord : Type 0 where
  pub sale : Sale
  pub receipt_number : String
  pub line_id : String
  pub created_at_utc : Option DateTime

abbrev pub source_ref : SaleRecord → String × String
source_ref rec = (rec.receipt_number, rec.line_id)

pub data MenuChangeKind : Type 0 where
  added price_change renamed discontinued : MenuChangeKind

-- A change holds a name, or `str` of a price; of the latter the number itself is kept here.
pub data ChangeValue : Type 0 where
  name_text : String → ChangeValue
  price_text : Money → ChangeValue

pub record MenuChange : Type 0 where
  pub item_id : String
  pub change_kind : MenuChangeKind
  pub at_time : DateTime
  pub from_value : Option ChangeValue
  pub to_value : Option ChangeValue

abbrev pub MenuSnapshot : Type 0
MenuSnapshot = List MenuItem

abbrev pub MenuDict : Type 0
MenuDict = List (String × MenuItem)

-- The two tests on an item that was there before, each adding its change.
abbrev pub price_changes : DateTime → String → MenuItem → MenuItem → List MenuChange
price_changes at_time item_id old new =
    if same new.sell_price old.sell_price
    then []
    else record {
      item_id = item_id;
      change_kind = price_change;
      at_time = at_time;
      from_value = some (price_text old.sell_price);
      to_value = some (price_text new.sell_price);
    }
      ∷ []

abbrev pub name_changes : DateTime → String → MenuItem → MenuItem → List MenuChange
name_changes at_time item_id old new =
    if new.name =? old.name
    then []
    else record {
      item_id = item_id;
      change_kind = renamed;
      at_time = at_time;
      from_value = some (name_text old.name);
      to_value = some (name_text new.name);
    }
      ∷ []

-- The body of the loop over the incoming items, given what was there before.
unfoldable pub item_changes : DateTime → String → Option MenuItem → MenuItem → List MenuChange
item_changes at_time item_id none new =
    record {
      item_id = item_id;
      change_kind = added;
      at_time = at_time;
      from_value = none;
      to_value = some (name_text new.name);
    }
    ∷ []
item_changes at_time item_id (some old) new =
    price_changes at_time item_id old new ++ name_changes at_time item_id old new

unfoldable pub incoming_changes : DateTime → MenuDict → MenuDict → List MenuChange
incoming_changes at_time previous [] = []
incoming_changes at_time previous ((item_id, new) ∷ incoming) =
    item_changes at_time item_id (lookup item_id previous) new
    ++ incoming_changes at_time previous incoming

-- The loop over `previous.keys() - incoming.keys()`, a set whose order Python does not fix: `gone`
-- lists it. An id that the previous menu does not have would raise, and is passed over here.
unfoldable pub gone_change : DateTime → String → Option MenuItem → List MenuChange
gone_change at_time item_id none = []
gone_change at_time item_id (some old) =
    record {
      item_id = item_id;
      change_kind = discontinued;
      at_time = at_time;
      from_value = some (name_text old.name);
      to_value = none;
    }
    ∷ []

unfoldable pub gone_changes : DateTime → MenuDict → List String → List MenuChange
gone_changes at_time previous [] = []
gone_changes at_time previous (item_id ∷ gone) =
    gone_change at_time item_id (lookup item_id previous) ++ gone_changes at_time previous gone

unfoldable pub diff_menu : MenuDict → MenuDict → List String → DateTime → List MenuChange
unfolding incoming_changes item_changes gone_changes gone_change
diff_menu previous incoming gone at_time =
    incoming_changes at_time previous incoming ++ gone_changes at_time previous gone

-- `InMemoryLoyverseStore`; `_seen_refs` is a set.
pub record LoyverseStore : Type 0 where
  pub stored_sales : List Sale
  pub seen_refs : List (String × String)
  pub menu : MenuDict
  pub history : List MenuChange

abbrev pub empty_store : LoyverseStore
empty_store = record { stored_sales = []; seen_refs = []; menu = []; history = [] }

abbrev pub is_recorded : String × String → List (String × String) → Bool
is_recorded ref seen = any (λ r. ref =? r) seen

-- The body of the loop over the records.
unfoldable pub record_sale : SaleRecord → LoyverseStore → LoyverseStore
record_sale rec store =
    if is_recorded (source_ref rec) store.seen_refs then store else record store {
      seen_refs = source_ref rec ∷ store.seen_refs;
      stored_sales = store.stored_sales ++ (rec.sale ∷ []);
    }

unfoldable pub record_sales : List SaleRecord → LoyverseStore → LoyverseStore
unfolding record_sale
record_sales [] store = store
record_sales (rec ∷ records) store = record_sales records (record_sale rec store)

abbrev pub menu_dict : MenuSnapshot → MenuDict
menu_dict snapshot = insert_all (map (λ mi. (mi.item_id, mi)) snapshot) []

unfoldable pub record_menu_snapshot :
    MenuSnapshot → List String → DateTime → LoyverseStore → LoyverseStore
unfolding diff_menu
record_menu_snapshot snapshot gone at_time store =
    let incoming = menu_dict snapshot in
    record store {
      history = store.history ++ diff_menu store.menu incoming gone at_time;
      menu = incoming;
    }
