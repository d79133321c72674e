-- ===== src/PriceHistory/Past.antt =====
-- A past date's prices of price_history.py: later edits leave them alone, and the frozen cost book
-- has them all.
use accounting_tool.Prelude.Sort.{sort, any-sort}
use accounting_tool.PriceHistory.Latest.{latest, counts, later_of, add_changes_lem}
use accounting_tool.Prelude.Dict.{insert, lookup-insert, lookup, get_or}
use accounting_tool.PriceHistory.Laws.{first_recorded, price_as_of_lem, price_on}
use accounting_tool.Decimal.{Money}
use accounting_tool.Calendar.{Date, before}
use accounting_tool.PriceHistory.{
  freeze_price, price_before_changes, PriceHistory, PriceChange, price_as_of, new_history,
  price_from, effective_date, freeze_prices, cost_book_as_of, is_known_sku, add_changes,
  changed_before,
}
use accounting_tool.Cost.{CostBook, SkuPrice, price}
use accounting_tool.Prelude.{
  Option, String, List, if◌then◌else◌, ◌≡◌, some, ◌++◌, ◌=?◌, ◌∷◌, true, none, Bool-cases, [],
  string_eq, arith, inl, ◌∙◌, inr, ap, refl, ap₂, Option-cases, sym, false, Bool, ◌||◌, any, subst,
  eq_sound, keep,
}

latest-later :
    (sku_id : String) (on_date : Date) (c : PriceChange) (log : List PriceChange)
    → before on_date c.changed_on ≡ true
    → latest sku_id on_date (log ++ (c ∷ [])) ≡ latest sku_id on_date log
latest-later sku_id on_date c [] h = ground (arith, h)
latest-later sku_id on_date c (b ∷ log) h =
    ap (λ rest. if counts sku_id on_date b then later_of b rest else rest)
      (latest-later sku_id on_date c log h)

abbrev then_first : String → PriceChange → Option PriceChange → Option PriceChange
then_first sku_id c none = if sku_id =? c.sku_id then some c else none
then_first sku_id c (some first) = some first

first_recorded-append :
    (sku_id : String) (c : PriceChange) (log : List PriceChange)
    → first_recorded sku_id (log ++ (c ∷ [])) ≡ then_first sku_id c (first_recorded sku_id log)
first_recorded-append sku_id c [] = refl
first_recorded-append sku_id c (b ∷ log) = elim (Bool-cases (sku_id =? b.sku_id)) [
  | inl mine ↦ rw mine refl
  | inr other ↦ rw other (first_recorded-append sku_id c log)
]

-- For a SKU that has a price the book gives the seed only when nothing was recorded.
seed_same :
    (c : PriceChange) (entry later : SkuPrice) (first : Option PriceChange)
    → c.old_price ≡ some entry.price
    → price_before_changes (some later) (elim first [ none ↦ some c | some f ↦ some f ])
      ≡ price_before_changes (some entry) first
unfolding price_before_changes
seed_same c entry later none old = rw old refl
seed_same c entry later (some f) old = refl

then_first_mine :
    (sku_id : String) (c : PriceChange) (first : Option PriceChange)
    → (sku_id =? c.sku_id) ≡ true
    → then_first sku_id c first ≡ elim first [ none ↦ some c | some f ↦ some f ]
then_first_mine sku_id c none mine = rw mine refl
then_first_mine sku_id c (some f) mine = refl

then_first_other :
    (sku_id : String) (c : PriceChange) (first : Option PriceChange)
    → (sku_id =? c.sku_id) ≡ false
    → then_first sku_id c first ≡ first
then_first_other sku_id c none other = rw other refl
then_first_other sku_id c (some f) other = refl

-- The price that a SKU has before every change is not moved by a change of a price that is there.
before_changes-repriced :
    (sku_id : String) (current : CostBook) (entry : SkuPrice) (c : PriceChange) (q : Money)
    (first : Option PriceChange)
    → price current c.sku_id ≡ some entry
    → c.old_price ≡ some entry.price
    → price_before_changes
        (price (insert c.sku_id (record { price = q; updated_at = c.changed_on }) current) sku_id)
        (then_first sku_id c first)
      ≡ price_before_changes (price current sku_id) first
unfolding price_before_changes
before_changes-repriced sku_id current entry c q first there old =
    let later : SkuPrice = record { price = q; updated_at = c.changed_on } in
    elim (Bool-cases (sku_id =? c.sku_id)) [
      | inl mine ↦
          let here : price (insert c.sku_id later current) sku_id ≡ some later =
            lookup-insert c.sku_id sku_id later current ∙ rw mine refl in
          let had : price current sku_id ≡ some entry =
            subst (λ (k : String). price current k ≡ some entry)
              (sym (eq_sound sku_id c.sku_id mine)) there in
          ap₂ price_before_changes here (then_first_mine sku_id c first mine)
          ∙ seed_same c entry later first old
          ∙ ap (λ o. price_before_changes o first) (sym had)
      | inr other ↦
          let past : price (insert c.sku_id later current) sku_id ≡ price current sku_id =
            lookup-insert c.sku_id sku_id later current ∙ rw other refl in
          ap₂ price_before_changes past (then_first_other sku_id c first other)
    ]

-- A change of price does not move the prices of the days before it: when the edit `c` takes the
-- price that the cost book has for its SKU to `q`, and is recorded at the end of the log with a
-- date after `on_date`, the price of every SKU on `on_date` is the same with the edit as without.
pub price_as_of-repriced :
    (current : CostBook) (log : List PriceChange) (c : PriceChange) (entry : SkuPrice) (q : Money)
    (sku_id : String) (on_date : Date)
    → price current c.sku_id ≡ some entry
    → c.old_price ≡ some entry.price
    → before on_date c.changed_on ≡ true
    → price_as_of
        (new_history
          (insert c.sku_id (record { price = q; updated_at = c.changed_on }) current)
          (log ++ (c ∷ [])))
        sku_id
        on_date
      ≡ price_as_of (new_history current log) sku_id on_date
price_as_of-repriced current log c entry q sku_id on_date there old after =
    let book = insert c.sku_id (record { price = q; updated_at = c.changed_on }) current in
    price_as_of_lem book (log ++ (c ∷ [])) sku_id on_date
    ∙ ap₂ (price_from (price book sku_id)) (latest-later sku_id on_date c log after)
        (first_recorded-append sku_id c log)
    ∙ elim (Option-cases (latest sku_id on_date log)) [
      | inl e ↦
          rw e
            (before_changes-repriced sku_id current entry c q (first_recorded sku_id log) there old)
      | inr (g, e) ↦ rw e refl
    ]
    ∙ sym (price_as_of_lem current log sku_id on_date)

abbrev pub value_of : Option SkuPrice → Option Money
value_of none = none
value_of (some entry) = some entry.price

-- The price of `k` in the book so far, once the loop has or has not come to `k`.
abbrev IsFrozen : PriceHistory → Date → String → Bool → CostBook → Type 0
IsFrozen history on_date k seen prices =
    value_of (price prices k) ≡ (if seen then price_as_of history k on_date else none)

freeze_price-none :
    (history : PriceHistory) (on_date : Date) (sku_id : String) (prices : CostBook)
    → price_as_of history sku_id on_date ≡ none
    → freeze_price history on_date sku_id prices ≡ prices
unfolding freeze_price
freeze_price-none history on_date sku_id prices e = rw (freeze_price, e) refl

freeze_price-some :
    (history : PriceHistory) (on_date : Date) (sku_id : String) (prices : CostBook) (p : Money)
    → price_as_of history sku_id on_date ≡ some p
    → freeze_price history on_date sku_id prices
      ≡ insert sku_id
          (record { price = p; updated_at = effective_date history sku_id on_date })
          prices
unfolding freeze_price
freeze_price-some history on_date sku_id prices p e = rw (freeze_price, e) refl

freeze_price-IsFrozen :
    (history : PriceHistory) (on_date : Date) (k sku_id : String) (seen : Bool) (prices : CostBook)
    → IsFrozen history on_date k seen prices
    → IsFrozen history on_date k
        (seen || (k =? sku_id))
        (freeze_price history on_date sku_id prices)
freeze_price-IsFrozen history on_date k sku_id seen prices h =
    elim (Option-cases (price_as_of history sku_id on_date)) [
      | inl e ↦
          ap (λ b. value_of (price b k)) (freeze_price-none history on_date sku_id prices e)
          ∙ h
          ∙ elim (Bool-cases (k =? sku_id)) [
            | inl mine ↦
                let absent =
                  ap (λ (j : String). price_as_of history j on_date) (eq_sound k sku_id mine) ∙ e in
                rw absent (ground (arith, mine))
            | inr other ↦ ground (arith, other)
          ]
      | inr (p, e) ↦
          let entry : SkuPrice = record {
            price = p;
            updated_at = effective_date history sku_id on_date;
          } in
          ap (λ b. value_of (price b k)) (freeze_price-some history on_date sku_id prices p e)
          ∙ ap value_of (lookup-insert sku_id k entry prices)
          ∙ elim (Bool-cases (k =? sku_id)) [
            | inl mine ↦
                let here =
                  ap (λ (j : String). price_as_of history j on_date) (eq_sound k sku_id mine) ∙ e in
                rw (here, mine) (ground (arith, mine))
            | inr other ↦ rw other (h ∙ ground (arith, other))
          ]
    ]

freeze_prices-IsFrozen :
    (history : PriceHistory) (on_date : Date) (k : String) (order : List String) (seen : Bool)
    (prices : CostBook)
    → IsFrozen history on_date k seen prices
    → IsFrozen history on_date k
        (seen || any (λ j. k =? j) order)
        (freeze_prices history on_date order prices)
freeze_prices-IsFrozen history on_date k [] seen prices h = h ∙ ground arith
freeze_prices-IsFrozen history on_date k (sku_id ∷ order) seen prices h =
    freeze_prices-IsFrozen history on_date k order (seen || (k =? sku_id))
      (freeze_price history on_date sku_id prices)
      (freeze_price-IsFrozen history on_date k sku_id seen prices h)
    ∙ ground arith

keep-any : (p : PriceChange → Bool) (log : List PriceChange) → keep p log ≡ [] → any p log ≡ false
keep-any p [] h = refl
keep-any p (c ∷ log) h = elim (Bool-cases (p c)) [
  | inl e ↦ let bad = rw e at h in absurd (cc)
  | inr e ↦ rw e (keep-any p log (rw e at h))
]

latest-unseen :
    (k : String) (on_date : Date) (log : List PriceChange)
    → any (λ c. k =? c.sku_id) log ≡ false
    → (latest k on_date log ≡ none) × (first_recorded k log ≡ none)
latest-unseen k on_date [] h = (refl, refl)
latest-unseen k on_date (c ∷ log) h =
    let other : (k =? c.sku_id) ≡ false = ground (arith, h) in
    let rest : any (λ c. k =? c.sku_id) log ≡ false = ground (arith, h) in
    let none_there = latest-unseen k on_date log rest in rw other none_there

nothing_recorded :
    (current : CostBook) (log : List PriceChange) (k : String) (on_date : Date)
    → lookup k current ≡ none
    → any (λ c. k =? c.sku_id) log ≡ false
    → price_on current log k on_date ≡ none
unfolding price_before_changes
nothing_recorded current log k on_date absent unseen =
    let none_there = latest-unseen k on_date log unseen in
    rw (absent, none_there.0, none_there.1) refl

unknown_price :
    (current : CostBook) (log : List PriceChange) (k : String) (on_date : Date)
    → is_known_sku (new_history current log) k ≡ false
    → price_as_of (new_history current log) k on_date ≡ none
unfolding new_history
unknown_price current log k on_date unknown =
    let by_sku = add_changes (sort changed_before log) [] in
    let no_entry : lookup k current ≡ none = ground (arith, unknown) in
    let no_list : lookup k by_sku ≡ none = ground (arith, unknown) in
    let mine : keep (λ c. k =? c.sku_id) (sort changed_before log) ≡ [] =
      sym (add_changes_lem k (sort changed_before log) []) ∙ rw (get_or, no_list) refl in
    let unseen : any (λ c. k =? c.sku_id) log ≡ false =
      sym (any-sort changed_before (λ c. k =? c.sku_id) log)
      ∙ keep-any (λ c. k =? c.sku_id) (sort changed_before log) mine in
    price_as_of_lem current log k on_date ∙ nothing_recorded current log k on_date no_entry unseen

-- The set of the ids that `cost_book_as_of` goes through, in some order.
abbrev pub IsOrder : PriceHistory → List String → Type 0
IsOrder history order = (k : String) → any (λ j. k =? j) order ≡ is_known_sku history k

-- The cost book frozen at a date has for every SKU the price that the history gives for the date,
-- and no entry for a SKU that has none, in whichever order the set of the known SKUs is gone
-- through.
pub cost_book_as_of_lem :
    (current : CostBook) (log : List PriceChange) (order : List String) (k : String)
    (on_date : Date)
    → IsOrder (new_history current log) order
    → value_of (price (cost_book_as_of (new_history current log) order on_date) k)
      ≡ price_as_of (new_history current log) k on_date
unfolding cost_book_as_of
cost_book_as_of_lem current log order k on_date complete =
    freeze_prices-IsFrozen (new_history current log) on_date k order false [] refl
    ∙ elim (Bool-cases (is_known_sku (new_history current log) k)) [
      | inl known ↦ rw (complete k, known) refl
      | inr unknown ↦ rw (complete k, unknown) (sym (unknown_price current log k on_date unknown))
    ]
