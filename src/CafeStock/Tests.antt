-- ===== src/CafeStock/Tests.antt =====
-- The theorems about cafe_stock.py at two deliveries of milk.
use accounting_tool.CafeStock.Laws.{purchased_quantity_for-split}
use accounting_tool.CafeStock.{purchased_quantity_for}
use accounting_tool.Decimal.{arithmetic, whole, plus, zero_money}
use accounting_tool.Types.{Purchase}
use accounting_tool.Calendar.{before, Date}
use accounting_tool.Prelude.{ℕ, List, ◌∷◌, some, ◌≡◌, [], refl, ◌*◌}

abbrev day : ℕ → Date
day d = record { year = 2026; month = 5; day = d }

abbrev delivery : ℕ → ℕ → Purchase
delivery d n = record {
  supplier_id = "makro";
  invoice_date = day d;
  lines =
      record {
        sku_id = some "milk";
        description = "milk";
        quantity = whole n;
        unit_price = whole 50;
      }
      ∷ [];
  vat = zero_money;
  total = whole (50 * n);
}

abbrev deliveries : List Purchase
deliveries = delivery 1 9 ∷ delivery 3 4 ∷ delivery 5 6 ∷ []

-- The delivery on the opening day belongs to the period before, that on the closing day to this one.
window_edges : purchased_quantity_for "milk" deliveries (some (day 1)) (some (day 5)) ≡ whole 10
unfolding arithmetic purchased_quantity_for before
window_edges = refl

purchased_quantity_for-split_example :
    purchased_quantity_for "milk" deliveries (some (day 1)) (some (day 5))
    ≡ plus
        (purchased_quantity_for "milk" deliveries (some (day 1)) (some (day 3)))
        (purchased_quantity_for "milk" deliveries (some (day 3)) (some (day 5)))
unfolding before
purchased_quantity_for-split_example =
    purchased_quantity_for-split "milk" deliveries (some (day 1)) (some (day 5)) (day 3) refl refl
