-- ===== src/Margin/Laws.antt =====
-- Which sums of margin.py agree.
use accounting_tool.Prelude.Sort.{sort, sort-perm}
use accounting_tool.Margin.Resolver.{cost_per_unit, Memo, has_unknown_price}
use accounting_tool.Margin.Day.{
  compute_item_margins, item_rows, item_row, compute_daily_margin, daily_margin_from, Source,
}
use accounting_tool.Cost.{CostBook}
use accounting_tool.Recipes.{RecipeCatalog, for_item, new_catalog}
use accounting_tool.Decimal.Laws.{plus_zero, plus_assoc, plus_swap, zero_plus}
use accounting_tool.Decimal.Sums.{total-cons, total-nil, total-map_perm}
use accounting_tool.Segments.{segment_of_sale}
use accounting_tool.Prelude.Dict.{lookup, insert}
use accounting_tool.Decimal.{Money, total, zero_money, plus}
use accounting_tool.Calendar.{Date, date_eq}
use accounting_tool.Margin.{
  segment_eq, Key, count_sales, count_sale, Tally, tally_sale, sale_amount, key_before, flagged_row,
  priced_row,
}
use accounting_tool.Types.{Sale, ItemMargin, DailyMargin}
use accounting_tool.Prelude.{
  pair_eq, string_eq, List, Option, keep, ◌=?◌, ◌≡◌, map, some, true, false, none, refl, sym, ap,
  ◌∙◌, ap₂, ◌∷◌, [], Bool-cases, inl, inr, Option-cases, arith,
}

-- The sales of a day.
abbrev pub day_sales : Date → List Sale → List Sale
day_sales day sales = keep (λ s. s.timestamp =? day) sales

abbrev takings : List (Key × Tally) → List Money
takings tallies = map (λ p. p.1.revenue) tallies

abbrev so_far : Option Tally → Money
so_far none = zero_money
so_far (some t) = t.revenue

tally_sale-revenue :
    (sale : Sale) (o : Option Tally)
    → (tally_sale sale o).revenue ≡ plus (so_far o) (sale_amount sale)
tally_sale-revenue sale none = refl
tally_sale-revenue sale (some t) = refl

takings-insert :
    (k : Key) (q : Tally) (x : Money) (d : List (Key × Tally))
    → q.revenue ≡ plus (so_far (lookup k d)) x
    → total (takings (insert k q d)) ≡ plus (total (takings d)) x
takings-insert k q x [] h =
    total-cons q.revenue []
    ∙ ap₂ plus h total-nil
    ∙ plus_zero (plus zero_money x)
    ∙ ap (λ t. plus t x) (sym total-nil)
takings-insert k q x ((j, w) ∷ d) h = elim (Bool-cases (k =? j)) [
  | inl mine ↦
      let here : lookup k ((j, w) ∷ d) ≡ some w = rw (lookup, mine) in
      let g : q.revenue ≡ plus w.revenue x = h ∙ ap (λ o. plus (so_far o) x) here in
      rw (mine, total-cons q.revenue (takings d), total-cons w.revenue (takings d), g)
        (plus_swap w.revenue x (total (takings d)))
  | inr other ↦
      let there : lookup k ((j, w) ∷ d) ≡ lookup k d = rw (lookup, other) in
      let g = h ∙ ap (λ o. plus (so_far o) x) there in
      let rest = takings (insert k q d) in
      rw (other, total-cons w.revenue rest, total-cons w.revenue (takings d))
        (ap (plus w.revenue) (takings-insert k q x d g)
          ∙ sym (plus_assoc w.revenue (total (takings d)) x))
]

count_sale_of_day :
    (day : Date) (sale : Sale) (d : List (Key × Tally))
    → (sale.timestamp =? day) ≡ true
    → total (takings (count_sale day sale d)) ≡ plus (total (takings d)) (sale_amount sale)
unfolding count_sale
count_sale_of_day day sale d h =
    let key : Key = (sale.item_id, segment_of_sale sale none) in
    rw (count_sale, h)
      (takings-insert key (tally_sale sale (lookup key d)) (sale_amount sale) d
        (tally_sale-revenue sale (lookup key d)))

count_sale_other_day :
    (day : Date) (sale : Sale) (d : List (Key × Tally))
    → (sale.timestamp =? day) ≡ false
    → count_sale day sale d ≡ d
unfolding count_sale
count_sale_other_day day sale d h = rw (count_sale, h)

count_sales-total :
    (day : Date) (sales : List Sale) (d : List (Key × Tally))
    → total (takings (count_sales day sales d))
      ≡ plus (total (takings d)) (total (map sale_amount (day_sales day sales)))
unfolding count_sales
count_sales-total day [] d =
    sym (ap (plus (total (takings d))) total-nil ∙ plus_zero (total (takings d)))
count_sales-total day (sale ∷ sales) d = elim (Bool-cases (sale.timestamp =? day)) [
  | inl today ↦
      let rest = map sale_amount (day_sales day sales) in
      rw (today, total-cons (sale_amount sale) rest)
        (count_sales-total day sales (count_sale day sale d)
          ∙ ap (λ t. plus t (total rest)) (count_sale_of_day day sale d today)
          ∙ plus_assoc (total (takings d)) (sale_amount sale) (total rest))
  | inr other ↦ rw (other, count_sale_other_day day sale d other) (count_sales-total day sales d)
]

same_revenue :
    (made row : ItemMargin) (memo after : Memo) {x : Money}
    → ◌≡◌ {A = Option (ItemMargin × Memo)} (some (made, memo)) (some (row, after))
    → made.revenue ≡ x
    → row.revenue ≡ x
same_revenue made row memo after e h = ground arith

module _ (recipes : RecipeCatalog) (cost : CostBook) (day : Date) where
  -- A row has the revenue of its key, whichever of the three outcomes it has.
  item_row-revenue :
      (memo : Memo) (key : Key) (t : Tally) (row : ItemMargin) (after : Memo)
      → item_row recipes cost day memo (key, t) ≡ some (row, after)
      → row.revenue ≡ t.revenue
  unfolding item_row
  item_row-revenue memo key t row after h = elim (Option-cases (for_item recipes key.0)) [
    | inl unmapped ↦
        let e = rw (item_row, unmapped) at h in
        same_revenue (flagged_row day key key.0 t false) row memo after e refl
    | inr (recipe, mapped) ↦
        let known = (has_unknown_price recipes cost memo recipe).1 in
        elim (Bool-cases (has_unknown_price recipes cost memo recipe).0) [
          | inl unpriced ↦
              let e = rw (item_row, mapped, unpriced) at h in
              same_revenue (flagged_row day key recipe.name t true) row known after e refl
          | inr priced ↦ elim (Option-cases (cost_per_unit recipes cost known recipe)) [
            | inl fault ↦ let bad = rw (item_row, mapped, priced, fault) at h in absurd (cc)
            | inr ((cpu, last), costed) ↦
                let e = rw (item_row, mapped, priced, costed) at h in
                same_revenue (priced_row day key recipe t cpu) row last after e refl
          ]
        ]
  ]

  item_rows-revenue :
      (memo : Memo) (entries : List (Key × Tally)) (rows : List ItemMargin)
      → item_rows recipes cost day memo entries ≡ some rows
      → map (λ r. r.revenue) rows ≡ takings entries
  unfolding item_rows
  item_rows-revenue memo [] rows h = ground arith
  item_rows-revenue memo ((key, t) ∷ entries) rows h =
      elim (Option-cases (item_row recipes cost day memo (key, t))) [
        | inl fault ↦ let bad = rw fault at h in absurd (cc)
        | inr ((row, after), found) ↦
            elim (Option-cases (item_rows recipes cost day after entries)) [
              | inl fault ↦ let bad = rw (found, fault) at h in absurd (cc)
              | inr (later, rest) ↦
                  let all = rw (found, rest) at h in
                  let same_rows : rows ≡ row ∷ later = ground arith in
                  rw same_rows (
                    ap₂ ◌∷◌ (item_row-revenue memo key t row after found)
                      (item_rows-revenue after entries later rest))
            ]
      ]

  -- The rows of a day carry the revenue of all of its sales.
  pub compute_item_margins-revenue :
      (sales : List Sale) (rows : List ItemMargin)
      → compute_item_margins recipes cost day sales ≡ some rows
      → total (map (λ r. r.revenue) rows) ≡ total (map sale_amount (day_sales day sales))
  unfolding compute_item_margins
  compute_item_margins-revenue sales rows h =
      let order = λ (a b : Key × Tally). key_before a.0 b.0 in
      let tallies = count_sales day sales [] in
      ap total (item_rows-revenue [] (sort order tallies) rows h)
      ∙ total-map_perm (λ (p : Key × Tally). p.1.revenue) _ _ (sort-perm order tallies)
      ∙ count_sales-total day sales []
      ∙ ap (λ t. plus t (total (map sale_amount (day_sales day sales)))) total-nil
      ∙ zero_plus (total (map sale_amount (day_sales day sales)))

-- The headline revenue of a day is what all of its sales took in, mapped to a recipe or not.
pub compute_daily_margin-revenue :
    (source : Source) (day : Date) (m : DailyMargin)
    → compute_daily_margin source day ≡ some m
    → m.total_revenue ≡ total (map sale_amount (day_sales day source.sales))
unfolding compute_daily_margin daily_margin_from
compute_daily_margin-revenue source day m h =
    let recipes = new_catalog source.recipes source.mappings in
    let cost = source.cost_book_as_of day in
    elim (Option-cases (compute_item_margins recipes cost day source.sales)) [
      | inl fault ↦ let bad = rw fault at h in absurd (cc)
      | inr (rows, found) ↦
          let e = rw found at h in
          let same_total : total (map (λ r. r.revenue) rows) ≡ m.total_revenue = ground arith in
          sym same_total ∙ compute_item_margins-revenue recipes cost day source.sales rows found
    ]
