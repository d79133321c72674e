-- ===== src/Cost/Laws.antt =====
-- Which price `CostBook.from_book` of cost.py picks.
use accounting_tool.Prelude.Dict.{lookup-insert}
use accounting_tool.Calendar.{before, before_irrefl, before_asymm, not_after_trans}
use accounting_tool.Cost.{
  SkuPrice, some, Money, Date, take_entry, CostBook, replaces, lookup, string_eq, take_price,
  take_entries, from_book, [], List, price,
}
use accounting_tool.Approvals.{ApprovalBook, last_known_price}
use accounting_tool.Prelude.{
  String, Option, ◌≡◌, false, ◌≢◌, ◌⊎◌, if◌then◌else◌, none, inl, ap, inr, Bool-cases, ◌=?◌, arith,
  subst, sym, eq_sound, refl, ◌∷◌, In, true,
}

-- Among the keys of which `Seen` holds the entry is one of the SKU's, and none of them is newer.
abbrev pub IsLatest : ApprovalBook → (String × String → Type 0) → String → Option SkuPrice → Type 0
IsLatest book Seen sku_id none =
    (supplier_id : String)
    → Seen (sku_id, supplier_id)
    → last_known_price book sku_id supplier_id ≡ none
IsLatest book Seen sku_id (some entry) =
    ((supplier_id : String) × Seen (sku_id, supplier_id)
      × (last_known_price book sku_id supplier_id ≡ some (entry.price, entry.updated_at)))
    × ((supplier_id : String) (p : Money) (on : Date)
        → Seen (sku_id, supplier_id)
        → last_known_price book sku_id supplier_id ≡ some (p, on)
        → before entry.updated_at on ≡ false)

abbrev merge : Option SkuPrice → Option (Money × Date) → Option SkuPrice
merge cur none = cur
merge cur (some (p, on)) =
    if replaces cur on then some (record { price = p; updated_at = on }) else cur

take_price-lookup :
    (k s : String) (latest : CostBook) (fact : Option (Money × Date))
    → lookup s (take_price k latest fact)
      ≡ (if s =? k then merge (lookup k latest) fact else lookup s latest)
unfolding take_price
take_price-lookup k s latest none = ground (arith, string_eq.beq_iff s k)
take_price-lookup k s latest (some (p, on)) =
    ground (
      arith,
      string_eq.beq_iff s k,
      lookup-insert k s (record { price = p; updated_at = on }) latest,
    )

module _ (book : ApprovalBook) where
  IsLatest-iff :
      (M N : String × String → Type 0) (s : String) (o : Option SkuPrice)
      → ((q : String × String) → M q → N q)
      → ((q : String × String) → N q → M q)
      → IsLatest book M s o
      → IsLatest book N s o
  IsLatest-iff M N s none f g h = λ supplier m. h supplier (g (s, supplier) m)
  IsLatest-iff M N s (some entry) f g ((supplier, m, e), h) =
      ((supplier, f (s, supplier) m, e), λ other p on n. h other p on (g (s, other) n))

  take_entry-lookup :
      (k supplier s : String) (latest : CostBook)
      → lookup s (take_entry book (k, supplier) latest) ≡ (
          if s =? k
          then merge (lookup k latest) (last_known_price book k supplier)
          else lookup s latest)
  unfolding take_entry
  take_entry-lookup k supplier s latest =
      take_price-lookup k s latest (last_known_price book k supplier)

  module _ (M : String × String → Type 0) (k supplier : String) where
    abbrev Also : String × String → Type 0
    Also q = (q ≡ (k, supplier)) ⊎ M q

    other-IsLatest :
        (s : String) (o : Option SkuPrice) → s ≢ k → IsLatest book M s o → IsLatest book Also s o
    other-IsLatest s none ne h =
        λ x m. elim m [ inl e ↦ absurd (ne (ap (λ q. q.0) e)) | inr m ↦ h x m ]
    other-IsLatest s (some entry) ne ((x, m, e), h) = (
      (x, inr m, e),
      λ y p on m'. elim m' [ inl e' ↦ absurd (ne (ap (λ q. q.0) e')) | inr m' ↦ h y p on m' ],
    )

    -- Two readings of one entry.
    same_entry :
        (y : String) (p p' : Money) (on on' : Date)
        → ◌≡◌ {A = String × String} (k, y) (k, supplier)
        → last_known_price book k supplier ≡ some (p, on)
        → last_known_price book k y ≡ some (p', on')
        → on ≡ on'
    same_entry y p p' on on' q e g =
        let g' : last_known_price book k supplier ≡ some (p', on') =
          subst (λ t. last_known_price book k t ≡ some (p', on')) (ap (λ t. t.1) q) g in
        ground arith

    not_newer :
        (y : String) (p p' : Money) (on on' : Date)
        → ◌≡◌ {A = String × String} (k, y) (k, supplier)
        → last_known_price book k supplier ≡ some (p, on)
        → last_known_price book k y ≡ some (p', on')
        → before on on' ≡ false
    not_newer y p p' on on' q e g = rw (← same_entry y p p' on on' q e g) (before_irrefl on)

    merge-IsLatest :
        (o : Option SkuPrice) (fact : Option (Money × Date))
        → last_known_price book k supplier ≡ fact
        → IsLatest book M k o
        → IsLatest book Also k (merge o fact)
    merge-IsLatest none none e h = λ x m. elim m [
      | inl q ↦ subst (λ t. last_known_price book k t ≡ none) (sym (ap (λ t. t.1) q)) e
      | inr m ↦ h x m
    ]
    merge-IsLatest (some entry) none e ((x, m, f), h) = (
      (x, inr m, f),
      λ y p on m' g. elim m' [ inl q ↦ absurd (nothing y p on q g) | inr n ↦ h y p on n g ],
    )
      where
        nothing :
            (y : String) (p : Money) (on : Date)
            → ◌≡◌ {A = String × String} (k, y) (k, supplier)
            → last_known_price book k y ≡ some (p, on)
            → ⊥
        nothing y p on q g =
            let g' : last_known_price book k supplier ≡ some (p, on) =
              subst (λ t. last_known_price book k t ≡ some (p, on)) (ap (λ t. t.1) q) g in
            cc
    merge-IsLatest none (some (p, on)) e h = (
      (supplier, inl refl, e),
      λ y p' on' m' g. elim m' [
        | inl q ↦ not_newer y p p' on on' q e g
        | inr n ↦ let g' = h y n in absurd (cc)
      ],
    )
    merge-IsLatest (some entry) (some (p, on)) e ((x, m, f), h) =
        elim (Bool-cases (before on entry.updated_at)) [
          | inl older ↦ rw older (
            (x, inr m, f),
            λ y p' on' m' g. elim m' [
              | inl q ↦
                  subst (λ t. before entry.updated_at t ≡ false) (same_entry y p p' on on' q e g)
                    (before_asymm on entry.updated_at older)
              | inr n ↦ h y p' on' n g
            ],
          )
          | inr newer ↦ rw newer (
            (supplier, inl refl, e),
            λ y p' on' m' g. elim m' [
              | inl q ↦ not_newer y p p' on on' q e g
              | inr n ↦ not_after_trans on' entry.updated_at on (h y p' on' n g) newer
            ],
          )
        ]

  take_entry-IsLatest :
      (M : String × String → Type 0) (k supplier : String) (latest : CostBook)
      → ((s : String) → IsLatest book M s (lookup s latest))
      → (s : String)
      → IsLatest book (Also M k supplier) s (lookup s (take_entry book (k, supplier) latest))
  take_entry-IsLatest M k supplier latest h s =
      rw (take_entry-lookup k supplier s latest) (elim (Bool-cases (s =? k)) [
        | inl e ↦
            rw (e, eq_sound s k e)
              (merge-IsLatest M k supplier (lookup k latest) (last_known_price book k supplier) refl
                (h k))
        | inr e ↦ rw e (
            other-IsLatest M k supplier s (lookup s latest)
              (λ q. let same : (s =? k) ≡ true = (string_eq.beq_iff s k).1 q in cc) (h s))
      ])

  take_entries-IsLatest :
      (order : List (String × String)) (M : String × String → Type 0) (latest : CostBook)
      → ((s : String) → IsLatest book M s (lookup s latest))
      → (s : String)
      → IsLatest book (λ q. In q order ⊎ M q) s (lookup s (take_entries book order latest))
  unfolding take_entries
  take_entries-IsLatest [] M latest h s =
      IsLatest-iff M (λ q. ⊥ ⊎ M q) s (lookup s latest) (λ q m. inr m)
        (λ q m. elim m [ inl x ↦ absurd x | inr y ↦ y ]) (h s)
  take_entries-IsLatest ((k, supplier) ∷ order) M latest h s =
      IsLatest-iff (λ q. In q order ⊎ Also M k supplier q)
        (λ q. ((q ≡ (k, supplier)) ⊎ In q order) ⊎ M q) s _
        (λ q m. elim m [
          | inl a ↦ inl (inr a)
          | inr b ↦ elim b [ inl c ↦ inl (inl c) | inr d ↦ inr d ]
        ])
        (λ q m. elim m [
          | inl a ↦ elim a [ inl c ↦ inr (inl c) | inr d ↦ inl d ]
          | inr b ↦ inr (inr b)
        ])
        (take_entries-IsLatest order (Also M k supplier) (take_entry book (k, supplier) latest)
          (take_entry-IsLatest M k supplier latest h) s)

-- In whatever order the keys come, the price of a SKU is that of an entry of the book among them
-- which no other such entry of the SKU is newer than; a SKU with no entry among them has no price.
pub from_book-IsLatest :
    (book : ApprovalBook) (order : List (String × String)) (sku_id : String)
    → IsLatest book (λ q. In q order) sku_id (price (from_book book order) sku_id)
unfolding from_book
from_book-IsLatest book order s =
    IsLatest-iff book (λ q. In q order ⊎ ⊥) (λ q. In q order) s
      (lookup s (take_entries book order [])) (λ q m. elim m [ inl a ↦ a | inr b ↦ absurd b ])
      (λ q m. inl m) (take_entries-IsLatest book order (λ q. ⊥) [] (λ t x m. absurd m) s)

-- Where two suppliers priced a SKU on one day, the order in which the set of keys comes decides: the
-- later key's price is taken, whichever of the two that is.
pub from_book-tie :
    (sku_id s t : String) (p q : Money) (on : Date)
    → s ≢ t
    → let book : ApprovalBook =
        ((sku_id, s), record { price = p; updated_at = on })
        ∷ ((sku_id, t), record { price = q; updated_at = on })
        ∷ [] in
      (price (from_book book ((sku_id, s) ∷ (sku_id, t) ∷ [])) sku_id
        ≡ some (record { price = q; updated_at = on }))
      × (price (from_book book ((sku_id, t) ∷ (sku_id, s) ∷ [])) sku_id
          ≡ some (record { price = p; updated_at = on }))
unfolding from_book take_entry take_price last_known_price
from_book-tie sku_id s t p q on ne = (
  ground (
    arith,
    string_eq.beq_iff s t,
    string_eq.beq_iff t s,
    string_eq.beq_iff s s,
    string_eq.beq_iff t t,
    string_eq.beq_iff sku_id sku_id,
    before_irrefl on,
  ),
  ground (
    arith,
    string_eq.beq_iff s t,
    string_eq.beq_iff t s,
    string_eq.beq_iff s s,
    string_eq.beq_iff t t,
    string_eq.beq_iff sku_id sku_id,
    before_irrefl on,
  ),
)
