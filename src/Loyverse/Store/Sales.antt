-- ===== src/Loyverse/Store/Sales.antt =====
-- What `record_sales` of loyverse/store.py promises: a sale is stored once.
use accounting_tool.Loyverse.Store.{
  record_sales, record_sale, LoyverseStore, SaleRecord, is_recorded, source_ref,
}
use accounting_tool.Prelude.{
  List, length, String, ◌∷◌, ◌≡◌, In, All, arith, length-append, [], true, map, eq_refl, refl,
  string_eq, inl, pair_eq, inr, subst, sym,
}

-- The sales are as many as the identities seen.
abbrev pub IsAligned : LoyverseStore → Type 0
IsAligned store = length store.stored_sales ≡ length store.seen_refs

record_sale_seen :
    (rec : SaleRecord) (store : LoyverseStore)
    → is_recorded (source_ref rec) store.seen_refs ≡ true
    → record_sale rec store ≡ store
unfolding record_sale
record_sale_seen rec store h = rw (record_sale, h)

record_sale_keeps :
    (ref : String × String) (rec : SaleRecord) (store : LoyverseStore)
    → is_recorded ref store.seen_refs ≡ true
    → is_recorded ref (record_sale rec store).seen_refs ≡ true
unfolding record_sale
record_sale_keeps ref rec store h = ground (arith, h)

record_sale_adds :
    (rec : SaleRecord) (store : LoyverseStore)
    → is_recorded (source_ref rec) (record_sale rec store).seen_refs ≡ true
unfolding record_sale
record_sale_adds rec store = ground (arith, eq_refl (source_ref rec))

record_sales_keeps :
    (ref : String × String) (records : List SaleRecord) (store : LoyverseStore)
    → is_recorded ref store.seen_refs ≡ true
    → is_recorded ref (record_sales records store).seen_refs ≡ true
unfolding record_sales
record_sales_keeps ref [] store h = h
record_sales_keeps ref (rec ∷ records) store h =
    record_sales_keeps ref records (record_sale rec store) (record_sale_keeps ref rec store h)

record_sales_adds :
    (rec : SaleRecord) (records : List SaleRecord) (store : LoyverseStore)
    → In (source_ref rec) (map source_ref records)
    → is_recorded (source_ref rec) (record_sales records store).seen_refs ≡ true
unfolding record_sales
record_sales_adds rec [] store m = absurd m
record_sales_adds rec (r ∷ records) store (inl e) =
    record_sales_keeps (source_ref rec) records (record_sale r store) (
      subst (λ ref. is_recorded ref (record_sale r store).seen_refs ≡ true) (sym e)
        (record_sale_adds r store))
record_sales_adds rec (r ∷ records) store (inr m) =
    record_sales_adds rec records (record_sale r store) m

record_sales_seen :
    (records : List SaleRecord) (store : LoyverseStore)
    → All (λ rec. is_recorded (source_ref rec) store.seen_refs ≡ true) records
    → record_sales records store ≡ store
unfolding record_sales
record_sales_seen [] store h = refl
record_sales_seen (rec ∷ records) store h =
    rw (record_sale_seen rec store h.0) (record_sales_seen records store h.1)

again_seen :
    (again records : List SaleRecord) (store : LoyverseStore)
    → All (λ rec. In (source_ref rec) (map source_ref records)) again
    → All (λ rec. is_recorded (source_ref rec) (record_sales records store).seen_refs ≡ true) again
again_seen [] records store h = tt
again_seen (rec ∷ again) records store h =
    (record_sales_adds rec records store h.0, again_seen again records store h.1)

-- A sync that has been recorded may be replayed, whole, in part, in another order or on top of
-- itself: when the identity of every record of `again` is the identity of a record that was
-- recorded before, whatever the store held, recording `again` changes nothing.
pub record_sales-replay :
    (records again : List SaleRecord) (store : LoyverseStore)
    → All (λ rec. In (source_ref rec) (map source_ref records)) again
    → record_sales again (record_sales records store) ≡ record_sales records store
record_sales-replay records again store h =
    record_sales_seen again (record_sales records store) (again_seen again records store h)

record_sale-IsAligned :
    (rec : SaleRecord) (store : LoyverseStore) → IsAligned store → IsAligned (record_sale rec store)
unfolding record_sale
record_sale-IsAligned rec store h =
    ground (arith, h, length-append store.stored_sales (rec.sale ∷ []))

pub record_sales-IsAligned :
    (records : List SaleRecord) (store : LoyverseStore)
    → IsAligned store
    → IsAligned (record_sales records store)
unfolding record_sales
record_sales-IsAligned [] store h = h
record_sales-IsAligned (rec ∷ records) store h =
    record_sales-IsAligned records (record_sale rec store) (record_sale-IsAligned rec store h)
