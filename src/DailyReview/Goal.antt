-- ===== src/DailyReview/Goal.antt =====
-- daily_review.py: what the goal counts of a day, beside the gross margin that the day shows.
use accounting_tool.Prelude.Sort.{sort}
use accounting_tool.Margin.Rollup.{total-splits}
use accounting_tool.Decimal.Laws.{
  decimal-eq, plus-places, minus-places, at-plus, at-minus, at-zero_money, plus_zero, zero_plus,
}
use accounting_tool.Margin.{Key, Tally, flagged_row, priced_row, key_before, count_sales}
use accounting_tool.Margin.Resolver.{Memo, has_unknown_price, cost_per_unit}
use accounting_tool.Decimal.Sums.{total-nil, total-cons}
use accounting_tool.Prelude.Int.{ℤ, ◌-ℤ◌, ◌+ℤ◌, pos, int_laws}
use accounting_tool.DailyReview.{reliable_rows, add_slices}
use accounting_tool.Calendar.{Date}
use accounting_tool.Cost.{CostBook}
use accounting_tool.Recipes.{RecipeCatalog, new_catalog, for_item}
use accounting_tool.Decimal.{Money, total, minus, plus, zero_money, at}
use accounting_tool.Types.{ItemMargin, excluded_from_totals, DailyMargin}
use accounting_tool.Margin.Day.{
  compute_daily_margin, daily_margin_from, compute_item_margins, item_rows, item_row, Source,
}
use accounting_tool.Prelude.{
  List, some, All, ◌≡◌, map, false, arith, subst, ◌∙◌, sym, Option-cases, ◌∷◌, max, [], ap₂, inl,
  Bool-cases, inr, ap, true, refl, Bool, keep, Option,
}

-- A row that counts has its revenue less its COGS as its gross margin.
abbrev pub IsMargin : ItemMargin → Type 0
IsMargin im = excluded_from_totals im ≡ false → im.gross_margin ≡ minus im.revenue im.cogs

row_keeps_IsMargin :
    {A : Type 0} (row made : ItemMargin) (after last : A)
    → ◌≡◌ {A = Option (ItemMargin × A)} (some (made, last)) (some (row, after))
    → IsMargin made
    → IsMargin row
row_keeps_IsMargin row made after last e h =
    let same_row : made ≡ row = ground arith in subst IsMargin same_row h

module _ (recipes : RecipeCatalog) (cost : CostBook) (day : Date) where
  item_row-IsMargin :
      (memo : Memo) (key : Key) (t : Tally) (row : ItemMargin) (after : Memo)
      → item_row recipes cost day memo (key, t) ≡ some (row, after)
      → IsMargin row
  unfolding item_row
  item_row-IsMargin memo key t row after h = elim (Option-cases (for_item recipes key.0)) [
    | inl unmapped ↦
        row_keeps_IsMargin row (flagged_row day key key.0 t false) after memo
          (rw (item_row, unmapped) at h) (λ e. absurd (cc))
    | inr (recipe, mapped) ↦
        let known = (has_unknown_price recipes cost memo recipe).1 in
        elim (Bool-cases (has_unknown_price recipes cost memo recipe).0) [
          | inl unpriced ↦
              row_keeps_IsMargin row (flagged_row day key recipe.name t true) after known
                (rw (item_row, mapped, unpriced) at h) (λ e. absurd (cc))
          | inr priced ↦ elim (Option-cases (cost_per_unit recipes cost known recipe)) [
            | inl fault ↦ let bad = rw (item_row, mapped, priced, fault) at h in absurd (cc)
            | inr ((cpu, last), costed) ↦
                row_keeps_IsMargin row (priced_row day key recipe t cpu) after last
                  (rw (item_row, mapped, priced, costed) at h) (λ e. refl)
          ]
        ]
  ]

  item_rows-IsMargin :
      (memo : Memo) (entries : List (Key × Tally)) (rows : List ItemMargin)
      → item_rows recipes cost day memo entries ≡ some rows
      → All IsMargin rows
  unfolding item_rows
  item_rows-IsMargin memo [] rows h =
      let none_left : [] ≡ rows = ground arith in subst (All IsMargin) none_left tt
  item_rows-IsMargin memo ((key, t) ∷ entries) rows h =
      elim (Option-cases (item_row recipes cost day memo (key, t))) [
        | inl fault ↦ let bad = rw fault at h in absurd (cc)
        | inr ((row, after), found) ↦
            elim (Option-cases (item_rows recipes cost day after entries)) [
              | inl fault ↦ let bad = rw (found, fault) at h in absurd (cc)
              | inr (later, rest) ↦
                  let all = rw (found, rest) at h in
                  let same_rows : row ∷ later ≡ rows = ground arith in
                  subst (All IsMargin) same_rows (
                    item_row-IsMargin memo key t row after found,
                    item_rows-IsMargin after entries later rest,
                  )
            ]
      ]

minus_sums : (a b c d : Money) → plus (minus a b) (minus c d) ≡ minus (plus a c) (plus b d)
minus_sums a b c d =
    let k = max (max a.places b.places) (max c.places d.places) in
    decimal-eq _ _ k
      (omega (arith, plus-places (minus a b) (minus c d), minus-places a b, minus-places c d))
      (omega (arith, minus-places (plus a c) (plus b d), plus-places a c, plus-places b d))
      (at-plus (minus a b) (minus c d) k (omega (arith, minus-places a b))
          (omega (arith, minus-places c d))
        ∙ ap₂ ◌+ℤ◌ (at-minus a b k (omega arith) (omega arith))
            (at-minus c d k (omega arith) (omega arith))
        ∙ sums (at k a) (at k b) (at k c) (at k d)
        ∙ sym (
            at-minus (plus a c) (plus b d) k (omega (arith, plus-places a c))
              (omega (arith, plus-places b d))
            ∙ ap₂ ◌-ℤ◌ (at-plus a c k (omega arith) (omega arith))
                (at-plus b d k (omega arith) (omega arith))))
  where
    sums : (a b c d : ℤ) → a -ℤ b +ℤ (c -ℤ d) ≡ a +ℤ c -ℤ (b +ℤ d)
    sums a b c d = omega int_laws

minus_zero : (a : Money) → minus a zero_money ≡ a
minus_zero a = decimal-eq _ _ a.places (omega (arith, minus-places a zero_money)) refl (
    at-minus a zero_money a.places (omega arith) (omega arith)
    ∙ ap (λ t. at a.places a -ℤ t) (at-zero_money a.places)
    ∙ less_nothing (at a.places a))
  where
    less_nothing : (a : ℤ) → a -ℤ pos 0 ≡ a
    less_nothing a = omega int_laws

-- What the goal adds for a day.
abbrev pub goal_margin : List ItemMargin → Money
goal_margin rows = total (map (λ im. im.gross_margin) (reliable_rows rows))

reliable_margin :
    (rows : List ItemMargin)
    → All IsMargin rows
    → goal_margin rows
      ≡ minus
          (total (map (λ im. im.revenue) (reliable_rows rows)))
          (total (map (λ im. im.cogs) (reliable_rows rows)))
reliable_margin [] h = total-nil ∙ sym (ap₂ minus total-nil total-nil ∙ minus_zero zero_money)
reliable_margin (im ∷ rows) h = elim (Bool-cases (excluded_from_totals im)) [
  | inl out ↦ rw out (reliable_margin rows h.1)
  | inr kept ↦
      let more = reliable_rows rows in
      rw
        (
          kept,
          total-cons im.gross_margin (map (λ r. r.gross_margin) more),
          total-cons im.revenue (map (λ r. r.revenue) more),
          total-cons im.cogs (map (λ r. r.cogs) more),
        )
        (ap₂ plus (h.0 kept) (reliable_margin rows h.1)
          ∙ minus_sums im.revenue im.cogs (total (map (λ r. r.revenue) more))
              (total (map (λ r. r.cogs) more)))
]

goal_rows :
    (day : Date) (rows : List ItemMargin)
    → All IsMargin rows
    → plus (goal_margin rows) (daily_margin_from day rows).flagged_revenue
      ≡ (daily_margin_from day rows).total_gross_margin
unfolding daily_margin_from
goal_rows day rows h =
    let revenue = total (map (λ im. im.revenue) (reliable_rows rows)) in
    let cogs = total (map (λ im. im.cogs) (reliable_rows rows)) in
    let flagged = total (map (λ im. im.revenue) (keep excluded_from_totals rows)) in
    ap₂ plus (reliable_margin rows h) (sym (minus_zero flagged))
    ∙ minus_sums revenue cogs flagged zero_money
    ∙ ap₂ minus (total-splits (λ im. im.revenue) excluded_from_totals rows) (plus_zero cogs)

goal_daily :
    (source : Source) (day : Date) (daily : DailyMargin)
    → compute_daily_margin source day ≡ some daily
    → plus (goal_margin daily.item_margins) daily.flagged_revenue ≡ daily.total_gross_margin
unfolding compute_daily_margin daily_margin_from compute_item_margins
goal_daily source day daily h =
    let recipes = new_catalog source.recipes source.mappings in
    let cost = source.cost_book_as_of day in
    elim (Option-cases (compute_item_margins recipes cost day source.sales)) [
      | inl fault ↦ let bad = rw fault at h in absurd (cc)
      | inr (rows, found) ↦
          let e = rw found at h in
          let same_day : daily_margin_from day rows ≡ daily = ground arith in
          let order : Key × Tally → Key × Tally → Bool = λ a b. key_before a.0 b.0 in
          let whole_rows =
            item_rows-IsMargin recipes cost day [] (sort order (count_sales day source.sales []))
              rows found in
          subst
            (λ (d : DailyMargin).
              plus (goal_margin d.item_margins) d.flagged_revenue ≡ d.total_gross_margin)
            same_day (goal_rows day rows whole_rows)
    ]

-- What the loop of the goal adds for a day falls short of the gross margin that the day shows by
-- the revenue of the flagged rows, which the headline includes.
pub add_slices-compute_daily_margin :
    (source : Source) (day : Date) (daily : DailyMargin)
    → compute_daily_margin source day ≡ some daily
    → plus
        (add_slices
          (record { day = day; item_margins = daily.item_margins } ∷ [])
          (zero_money, 0)).0
        daily.flagged_revenue
      ≡ daily.total_gross_margin
add_slices-compute_daily_margin source day daily h =
    ap (λ t. plus t daily.flagged_revenue) (zero_plus (goal_margin daily.item_margins))
    ∙ goal_daily source day daily h
