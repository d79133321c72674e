-- ===== src/CashSpend/Laws.antt =====
-- What the cash spend of cash_spend.py comes to, and in which buckets.
use accounting_tool.Decimal.Value.{Same}
use accounting_tool.Decimal.Rounding.{half_unit, quantize-Near, quantize-places, quantize-Same}
use accounting_tool.Decimal.Laws.{
  plus_zero, plus_swap, plus_assoc, zero_plus, plus_comm, plus-places,
}
use accounting_tool.Decimal.Sums.{total-cons, total-nil}
use accounting_tool.Prelude.Dict.{contains, get_or, insert, lookup-insert}
use accounting_tool.Decimal.Near.{Near, Near-plus, Near-of_Same, Near-trans}
use accounting_tool.Calendar.{Date}
use accounting_tool.Decimal.{Money, plus, zero_money, total, quantize}
use accounting_tool.CashSpend.{
  add_entries, CashSpendEntry, in_range, net_of_vat, add_entry, cash_spend_for_period,
}
use accounting_tool.Prelude.{
  List, String, keep, map, ◌≡◌, ◌||◌, any, ◌=?◌, arith, ◌∷◌, Bool-cases, inl, inr, subst, string_eq,
  [], refl, true, false, ◌∙◌, sym, All, ◌≤◌, ap,
}

abbrev pub within : Date → Date → List CashSpendEntry → List CashSpendEntry
within start stop entries = keep (λ e. in_range start stop e.date) entries

abbrev pub amounts : List (String × Money) → List Money
amounts by_bucket = map (λ p. p.1) by_bucket

-- What a row of the range makes of its bucket.
abbrev accumulated : CashSpendEntry → List (String × Money) → Money
accumulated e d = plus (get_or e.bucket_id zero_money d) (net_of_vat e)

add_entry_inside :
    (start stop : Date) (e : CashSpendEntry) (d : List (String × Money))
    → in_range start stop e.date ≡ true
    → add_entry start stop e d ≡ insert e.bucket_id (quantize 2 (accumulated e d)) d
unfolding add_entry
add_entry_inside start stop e d h = rw (add_entry, h)

add_entry_outside :
    (start stop : Date) (e : CashSpendEntry) (d : List (String × Money))
    → in_range start stop e.date ≡ false
    → add_entry start stop e d ≡ d
unfolding add_entry
add_entry_outside start stop e d h = rw (add_entry, h)

contains-insert :
    (b k : String) (v : Money) (d : List (String × Money))
    → contains b (insert k v d) ≡ ((b =? k) || contains b d)
contains-insert b k v d = ground (arith, lookup-insert k b v d)

-- A bucket is there exactly when a row of the range is in it.
pub add_entries-contains :
    (start stop : Date) (entries : List CashSpendEntry) (d : List (String × Money)) (b : String)
    → contains b (add_entries start stop entries d)
      ≡ (contains b d || any (λ e. b =? e.bucket_id) (within start stop entries))
unfolding add_entries
add_entries-contains start stop [] d b = ground arith
add_entries-contains start stop (e ∷ entries) d b = elim (Bool-cases (in_range start stop e.date)) [
  | inl inside ↦
      let q = quantize 2 (accumulated e d) in
      rw (inside, add_entry_inside start stop e d inside)
        (add_entries-contains start stop entries (insert e.bucket_id q d) b
          ∙ ground (arith, contains-insert b e.bucket_id q d))
  | inr outside ↦
      rw (outside, add_entry_outside start stop e d outside)
        (add_entries-contains start stop entries d b)
]

-- Putting an amount in its bucket moves the sum of the buckets by what was added.
amounts-insert :
    (t x q : Money) (b : String) (d : List (String × Money))
    → Near t q (plus (get_or b zero_money d) x)
    → Near t (total (amounts (insert b q d))) (plus (total (amounts d)) x)
amounts-insert t x q b [] h = rw (total-cons q [], total-nil, plus_zero q) h
amounts-insert t x q b ((j, w) ∷ d) h = elim (Bool-cases (b =? j)) [
  | inl mine ↦
      let here : get_or b zero_money ((j, w) ∷ d) ≡ w = rw (get_or, mine) in
      let g = subst (λ v. Near t q (plus v x)) here h in
      rw
        (
          mine,
          total-cons q (amounts d),
          total-cons w (amounts d),
          plus_swap w (total (amounts d)) x,
        )
        (subst (λ s. Near s (plus q (total (amounts d))) (plus (plus w x) (total (amounts d))))
          (plus_zero t)
          (Near-plus t zero_money q (plus w x) (total (amounts d)) (total (amounts d)) g
            (Near-of_Same (total (amounts d)) (total (amounts d)) refl)))
  | inr other ↦
      let there : get_or b zero_money ((j, w) ∷ d) ≡ get_or b zero_money d = rw (get_or, other) in
      let g = subst (λ v. Near t q (plus v x)) there h in
      let rest = amounts (insert b q d) in
      rw (other, total-cons w rest, total-cons w (amounts d), plus_assoc w (total (amounts d)) x)
        (subst (λ s. Near s (plus w (total rest)) (plus w (plus (total (amounts d)) x)))
          (zero_plus t)
          (Near-plus zero_money t w w (total rest) (plus (total (amounts d)) x)
            (Near-of_Same w w refl) (amounts-insert t x q b d g)))
]

-- Half a satang for each row of the range.
abbrev pub rounding : Date → Date → List CashSpendEntry → Money
rounding start stop entries = total (map (λ _. half_unit 2) (within start stop entries))

abbrev pub contributions : Date → Date → List CashSpendEntry → Money
contributions start stop entries = total (map net_of_vat (within start stop entries))

add_entries-Near :
    (start stop : Date) (entries : List CashSpendEntry) (d : List (String × Money))
    → Near
        (rounding start stop entries)
        (total (amounts (add_entries start stop entries d)))
        (plus (total (amounts d)) (contributions start stop entries))
unfolding add_entries
add_entries-Near start stop [] d =
    let before_it = total (amounts d) in
    subst (λ z. Near z before_it (plus before_it z)) (sym total-nil)
      (subst (λ z. Near zero_money before_it z) (sym (plus_zero before_it))
        (Near-of_Same before_it before_it refl))
add_entries-Near start stop (e ∷ entries) d = elim (Bool-cases (in_range start stop e.date)) [
  | inl inside ↦
      let x = net_of_vat e in
      let before_it = total (amounts d) in
      let d' = insert e.bucket_id (quantize 2 (accumulated e d)) d in
      let after = total (amounts d') in
      let own =
        amounts-insert (half_unit 2) x (quantize 2 (accumulated e d)) e.bucket_id d
          (quantize-Near 2 (accumulated e d)) in
      let more = contributions start stop entries in
      let rest = rounding start stop entries in
      rw
        (
          inside,
          add_entry_inside start stop e d inside,
          total-cons x (map net_of_vat (within start stop entries)),
          total-cons (half_unit 2) (map (λ _. half_unit 2) (within start stop entries)),
          plus_comm (half_unit 2) rest,
          ← plus_assoc before_it x more,
        )
        (subst
          (λ s.
            Near (plus rest s) (total (amounts (add_entries start stop entries d')))
              (plus (plus before_it x) more))
          (plus_zero (half_unit 2))
          (Near-trans rest (plus (half_unit 2) zero_money)
            (total (amounts (add_entries start stop entries d'))) (plus after more)
            (plus (plus before_it x) more) (add_entries-Near start stop entries d')
            (Near-plus (half_unit 2) zero_money after (plus before_it x) more more own
              (Near-of_Same more more refl))))
  | inr outside ↦
      rw (outside, add_entry_outside start stop e d outside) (add_entries-Near start stop entries d)
]

-- Every bucket is kept in satang.
abbrev InCents : List (String × Money) → Type 0
InCents d = All (λ p. p.1.places ≤ 2) d

insert-InCents :
    (b : String) (x : Money) (d : List (String × Money))
    → InCents d
    → InCents (insert b (quantize 2 x) d)
insert-InCents b x [] h = (omega (arith, quantize-places 2 x), tt)
insert-InCents b x ((j, w) ∷ d) h = elim (Bool-cases (b =? j)) [
  | inl mine ↦ rw mine (omega (arith, quantize-places 2 x), h.1)
  | inr other ↦ rw other (h.0, insert-InCents b x d h.1)
]

add_entries-InCents :
    (start stop : Date) (entries : List CashSpendEntry) (d : List (String × Money))
    → InCents d
    → InCents (add_entries start stop entries d)
unfolding add_entries
add_entries-InCents start stop [] d h = h
add_entries-InCents start stop (e ∷ entries) d h = elim (Bool-cases (in_range start stop e.date)) [
  | inl inside ↦
      rw (add_entry_inside start stop e d inside) (
        add_entries-InCents start stop entries _ (insert-InCents e.bucket_id (accumulated e d) d h))
  | inr outside ↦
      rw (add_entry_outside start stop e d outside) (add_entries-InCents start stop entries d h)
]

total-places : (d : List (String × Money)) → InCents d → (total (amounts d)).places ≤ 2
total-places [] h = rw total-nil (omega arith)
total-places ((j, w) ∷ d) h =
    rw (total-cons w (amounts d))
      (omega (arith, plus-places w (total (amounts d)), total-places d h.1))

-- The period's total is exactly the sum of its buckets: rounding it changes nothing.
pub cash_spend_for_period-total :
    (start stop : Date) (entries : List CashSpendEntry)
    → let r = cash_spend_for_period start stop entries in
      Same r.total_spend (total (amounts r.by_bucket))
unfolding cash_spend_for_period
cash_spend_for_period-total start stop entries =
    quantize-Same 2 (total (amounts (add_entries start stop entries []))) (
      total-places (add_entries start stop entries [])
        (add_entries-InCents start stop entries [] tt))

-- The total is off the exact sum of the contributions, net of VAT, by half a satang at most for
-- each row of the range, however the rows fall into buckets.
pub cash_spend_for_period-Near :
    (start stop : Date) (entries : List CashSpendEntry)
    → Near
        (rounding start stop entries)
        (cash_spend_for_period start stop entries).total_spend
        (contributions start stop entries)
unfolding cash_spend_for_period
cash_spend_for_period-Near start stop entries =
    let sum = total (amounts (add_entries start stop entries [])) in
    let exact = contributions start stop entries in
    let close : Near (rounding start stop entries) sum exact =
      subst (λ z. Near (rounding start stop entries) sum z)
        (ap (λ z. plus z exact) total-nil ∙ zero_plus exact)
        (add_entries-Near start stop entries []) in
    subst (λ z. Near z (quantize 2 sum) exact) (zero_plus (rounding start stop entries))
      (Near-trans zero_money (rounding start stop entries) (quantize 2 sum) sum exact
        (Near-of_Same (quantize 2 sum) sum (cash_spend_for_period-total start stop entries)) close)

-- A bucket is reported exactly when a row of the range is in it.
pub cash_spend_for_period-buckets :
    (start stop : Date) (entries : List CashSpendEntry) (b : String)
    → contains b (cash_spend_for_period start stop entries).by_bucket
      ≡ any (λ e. b =? e.bucket_id) (within start stop entries)
unfolding cash_spend_for_period
cash_spend_for_period-buckets start stop entries b = add_entries-contains start stop entries [] b
