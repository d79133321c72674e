-- ===== src/CafeStock/Laws.antt =====
-- What the purchase windows and the consumption of cafe_stock.py add up to.
use accounting_tool.Decimal.Sums.{total-nil, total-cons}
use accounting_tool.Decimal.Laws.{zero_plus, plus_zero, plus_assoc, plus_comm}
use accounting_tool.Decimal.Congruence.{Same-telescope}
use accounting_tool.Decimal.Value.{Same}
use accounting_tool.Decimal.{Decimal, same, total, plus, zero_money}
use accounting_tool.Calendar.{Date, before, not_after_trans, before_trans}
use accounting_tool.CafeStock.{
  add_purchases, purchased_quantity_for, in_window, consumed_quantity, add_lines,
}
use accounting_tool.Types.{Purchase, PurchaseLine}
use accounting_tool.Prelude.{
  Option, String, List, ◌≡◌, Bool, some, keep, ◌||◌, map, ◌=?◌, sym, ◌&&◌, false, ap, none,
  option_eq, string_eq, ◌∙◌, arith, ◌∷◌, Bool-cases, inl, true, inr, [],
}

-- The quantity of a SKU on a purchase, and in a window of purchases.
abbrev pub line_quantities : String → List PurchaseLine → List Decimal
line_quantities sku_id lines = map (λ l. l.quantity) (keep (λ l. l.sku_id =? some sku_id) lines)

abbrev pub quantity_on : String → Purchase → Decimal
quantity_on sku_id p = total (line_quantities sku_id p.lines)

abbrev pub within : Option Date → Option Date → List Purchase → List Purchase
within open_date close_date purchases =
    keep (λ p. in_window p.invoice_date open_date close_date) purchases

add_lines-total :
    (sku_id : String) (acc : Decimal) (lines : List PurchaseLine)
    → add_lines sku_id acc lines ≡ plus acc (total (line_quantities sku_id lines))
unfolding add_lines
add_lines-total sku_id acc [] = sym (ap (plus acc) total-nil ∙ plus_zero acc)
add_lines-total sku_id acc (line ∷ lines) = elim (Bool-cases (line.sku_id =? some sku_id)) [
  | inl same ↦
      let rest = line_quantities sku_id lines in
      rw
        (same, add_lines-total sku_id (plus acc line.quantity) lines, total-cons line.quantity rest)
        (plus_assoc acc line.quantity (total rest))
  | inr other ↦ rw other (add_lines-total sku_id acc lines)
]

add_purchases-total :
    (sku_id : String) (o c : Option Date) (acc : Decimal) (purchases : List Purchase)
    → add_purchases sku_id o c acc purchases
      ≡ plus acc (total (map (quantity_on sku_id) (within o c purchases)))
unfolding add_purchases
add_purchases-total sku_id o c acc [] = sym (ap (plus acc) total-nil ∙ plus_zero acc)
add_purchases-total sku_id o c acc (p ∷ purchases) =
    let rest = map (quantity_on sku_id) (within o c purchases) in
    elim (Bool-cases (in_window p.invoice_date o c)) [
      | inl inside ↦
          rw
            (
              inside,
              add_purchases-total sku_id o c (add_lines sku_id acc p.lines) purchases,
              add_lines-total sku_id acc p.lines,
              total-cons (quantity_on sku_id p) rest,
            )
            (plus_assoc acc (quantity_on sku_id p) (total rest))
      | inr outside ↦ rw outside (add_purchases-total sku_id o c acc purchases)
    ]

-- The purchased quantity is the sum of the SKU's quantities on the purchases of the window.
purchased_quantity_for-total :
    (sku_id : String) (purchases : List Purchase) (o c : Option Date)
    → purchased_quantity_for sku_id purchases o c
      ≡ total (map (quantity_on sku_id) (within o c purchases))
unfolding purchased_quantity_for
purchased_quantity_for-total sku_id purchases o c =
    add_purchases-total sku_id o c zero_money purchases
    ∙ zero_plus (total (map (quantity_on sku_id) (within o c purchases)))

-- An opening date that is not after `mid`, and a closing date that is not before it.
abbrev pub OpensBy : Option Date → Date → Type 0
OpensBy none mid = Unit
OpensBy (some d) mid = before mid d ≡ false

abbrev pub ClosesAfter : Option Date → Date → Type 0
ClosesAfter none mid = Unit
ClosesAfter (some d) mid = before d mid ≡ false

-- A day lies in the first window, in the second, or in neither.
window_splits :
    (o c : Option Date) (mid day : Date)
    → OpensBy o mid
    → ClosesAfter c mid
    → (in_window day o c ≡ (in_window day o (some mid) || in_window day (some mid) c))
      × (in_window day o (some mid) && in_window day (some mid) c ≡ false)
unfolding in_window
window_splits none none mid day h g = (ground arith, ground arith)
window_splits none (some c) mid day h g =
    ground (arith, not_after_trans mid c day, before_trans day mid c, not_after_trans day mid c)
window_splits (some o) none mid day h g = ground (arith, not_after_trans day o mid)
window_splits (some o) (some c) mid day h g =
    ground (arith, not_after_trans day o mid, not_after_trans day mid c)

-- A list splits as a test does.
splits :
    (f : Purchase → Decimal) (p q r : Purchase → Bool)
    → ((x : Purchase) → (p x ≡ (q x || r x)) × (q x && r x ≡ false))
    → (l : List Purchase)
    → total (map f (keep p l)) ≡ plus (total (map f (keep q l))) (total (map f (keep r l)))
splits f p q r h [] = sym (ap (λ t. plus t (total [])) total-nil ∙ zero_plus (total []))
splits f p q r h (x ∷ l) =
    let ih = splits f p q r h l in
    let kq = map f (keep q l) in
    let kr = map f (keep r l) in
    elim (Bool-cases (q x)) [
      | inl a ↦
          let b : r x ≡ false = ground (arith, h x) in
          let c : p x ≡ true = ground (arith, h x) in
          rw (a, b, c, total-cons (f x) (map f (keep p l)), total-cons (f x) kq)
            (ap (plus (f x)) ih ∙ sym (plus_assoc (f x) (total kq) (total kr)))
      | inr a ↦ elim (Bool-cases (r x)) [
        | inl b ↦
            let c : p x ≡ true = ground (arith, h x) in
            rw (a, b, c, total-cons (f x) (map f (keep p l)), total-cons (f x) kr)
              (ap (plus (f x)) ih
                ∙ sym (plus_assoc (f x) (total kq) (total kr))
                ∙ ap (λ t. plus t (total kr)) (plus_comm (f x) (total kq))
                ∙ plus_assoc (total kq) (f x) (total kr))
        | inr b ↦ let c : p x ≡ false = ground (arith, h x) in rw (a, b, c) ih
      ]
    ]

-- A count in between splits a window without gap or overlap: what was bought in the whole window is
-- what was bought up to the count's day and what was bought after it.
pub purchased_quantity_for-split :
    (sku_id : String) (purchases : List Purchase) (o c : Option Date) (mid : Date)
    → OpensBy o mid
    → ClosesAfter c mid
    → purchased_quantity_for sku_id purchases o c
      ≡ plus
          (purchased_quantity_for sku_id purchases o (some mid))
          (purchased_quantity_for sku_id purchases (some mid) c)
purchased_quantity_for-split sku_id purchases o c mid h g =
    rw
      (
        purchased_quantity_for-total sku_id purchases o c,
        purchased_quantity_for-total sku_id purchases o (some mid),
        purchased_quantity_for-total sku_id purchases (some mid) c,
      )
      (splits (quantity_on sku_id) (λ p. in_window p.invoice_date o c)
        (λ p. in_window p.invoice_date o (some mid)) (λ p. in_window p.invoice_date (some mid) c)
        (λ p. window_splits o c mid p.invoice_date h g) purchases)

-- What was consumed over two periods that meet at a count is what was consumed over the whole.
pub consumed_quantity-split :
    (sku_id : String) (purchases : List Purchase) (o c : Option Date) (mid : Date)
    (beginning counted_mid ending : Decimal)
    → OpensBy o mid
    → ClosesAfter c mid
    → Same
        (plus
          (consumed_quantity beginning
            (purchased_quantity_for sku_id purchases o (some mid))
            counted_mid)
          (consumed_quantity counted_mid
            (purchased_quantity_for sku_id purchases (some mid) c)
            ending))
        (consumed_quantity beginning (purchased_quantity_for sku_id purchases o c) ending)
unfolding consumed_quantity
consumed_quantity-split sku_id purchases o c mid b m e h g =
    let p = purchased_quantity_for sku_id purchases o (some mid) in
    let q = purchased_quantity_for sku_id purchases (some mid) c in
    rw (purchased_quantity_for-split sku_id purchases o c mid h g) (Same-telescope b p m q e)
