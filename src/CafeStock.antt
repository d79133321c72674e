-- ===== src/CafeStock.antt =====
-- cafe_stock.py: what the cafe consumed between two stock counts, and its cost.
pub mod Laws
mod Tests
use accounting_tool.Cost.{CostBook, price}
use accounting_tool.Prelude.Dict.{get_or, insert_all}
use accounting_tool.Types.{Purchase, PurchaseLine, CafeStockCount, CafeItem, CafeConsumedCogs}
use accounting_tool.Decimal.{Decimal, minus, plus, zero_money, times}
use accounting_tool.Calendar.{Date, not_after, before}
use accounting_tool.Prelude.{
  String, List, Option, Bool, if◌then◌else◌, none, ◌∷◌, true, ◌=?◌, not, some, ◌&&◌, map, false, [],
  string_eq, option_eq,
}

unfoldable pub consumed_quantity : Decimal → Decimal → Decimal → Decimal
consumed_quantity beginning purchased ending = minus (plus beginning purchased) ending

-- The two loops of `_sku_purchase_window`.
unfoldable pub open_window : String → List CafeStockCount → Option Date → Option Date
open_window sku_id [] open_date = open_date
open_window sku_id (c ∷ counts) open_date = open_window sku_id counts (
    if c.sku_id =? sku_id && elim open_date [ none ↦ true | some d ↦ before c.timestamp d ]
    then some c.timestamp
    else open_date)

unfoldable pub close_window : String → List CafeStockCount → Option Date → Option Date
close_window sku_id [] close_date = close_date
close_window sku_id (c ∷ counts) close_date = close_window sku_id counts (
    if c.sku_id =? sku_id && elim close_date [ none ↦ true | some d ↦ before d c.timestamp ]
    then some c.timestamp
    else close_date)

unfoldable pub sku_purchase_window :
    String → List CafeStockCount → List CafeStockCount → Option Date × Option Date
unfolding open_window close_window
sku_purchase_window sku_id beginning ending =
    (open_window sku_id beginning none, close_window sku_id ending none)

-- `open_date < invoice_date`, where there is an opening date.
abbrev pub opened : Option Date → Date → Bool
opened none invoice_date = true
opened (some d) invoice_date = before d invoice_date

abbrev pub not_closed : Option Date → Date → Bool
not_closed none invoice_date = true
not_closed (some d) invoice_date = not_after invoice_date d

unfoldable pub in_window : Date → Option Date → Option Date → Bool
in_window invoice_date open_date close_date =
    if not (opened open_date invoice_date)
    then false
    else if not (not_closed close_date invoice_date)
    then false
    else true

unfoldable pub add_lines : String → Decimal → List PurchaseLine → Decimal
add_lines sku_id acc [] = acc
add_lines sku_id acc (line ∷ lines) =
    add_lines sku_id (if line.sku_id =? some sku_id then plus acc line.quantity else acc) lines

unfoldable pub add_purchases :
    String → Option Date → Option Date → Decimal → List Purchase → Decimal
add_purchases sku_id open_date close_date acc [] = acc
add_purchases sku_id open_date close_date acc (purchase ∷ purchases) =
    add_purchases sku_id open_date close_date
      (if not (in_window purchase.invoice_date open_date close_date)
        then acc
        else add_lines sku_id acc purchase.lines)
      purchases

unfoldable pub purchased_quantity_for : String → List Purchase → Option Date → Option Date → Decimal
unfolding add_purchases add_lines in_window
purchased_quantity_for sku_id purchases open_date close_date =
    add_purchases sku_id open_date close_date zero_money purchases

-- `{c.sku_id: c.quantity for c in counts}.get(sku_id, Decimal("0"))`
unfoldable pub counted : String → List CafeStockCount → Decimal
counted sku_id counts =
    get_or sku_id zero_money
      (insert_all (map (λ (c : CafeStockCount). (c.sku_id, c.quantity)) counts) [])

module _ (beginning ending : List CafeStockCount) (purchases : List Purchase)
    (cost : CostBook) where
  -- The body of the loop over the items.
  unfoldable pub item_cogs : CafeItem → CafeConsumedCogs
  item_cogs item =
      let beginning_qty = counted item.sku_id beginning in
      let ending_qty = counted item.sku_id ending in
      let (open_date, close_date) = sku_purchase_window item.sku_id beginning ending in
      let purchased_qty = purchased_quantity_for item.sku_id purchases open_date close_date in
      let consumed = consumed_quantity beginning_qty purchased_qty ending_qty in
      elim (price cost item.sku_id) [
        | none ↦ record {
          sku_id = item.sku_id;
          name = item.name;
          unit = item.unit;
          cadence = item.cadence;
          beginning_quantity = beginning_qty;
          purchased_quantity = purchased_qty;
          ending_quantity = ending_qty;
          consumed_quantity = consumed;
          unit_cost = zero_money;
          cogs = zero_money;
          unpriced = true;
        }
        | some price_entry ↦ record {
          sku_id = item.sku_id;
          name = item.name;
          unit = item.unit;
          cadence = item.cadence;
          beginning_quantity = beginning_qty;
          purchased_quantity = purchased_qty;
          ending_quantity = ending_qty;
          consumed_quantity = consumed;
          unit_cost = price_entry.price;
          cogs = times consumed price_entry.price;
          unpriced = false;
        }
      ]

  unfoldable pub compute_cafe_consumed_cogs : List CafeItem → List CafeConsumedCogs
  compute_cafe_consumed_cogs items = map item_cogs items
