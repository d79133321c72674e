-- ===== src/PeriodReview/Laws.antt =====
-- How the figures of period_review.py for a range agree with each other.
use accounting_tool.Margin.Rollup.{final, two, final_flagged, total-splits, final_revenue}
use accounting_tool.Prelude.Sort.{sort, sort-perm}
use accounting_tool.Decimal.Sums.{total-nil, total-cons, total-append, total-map_perm}
use accounting_tool.Prelude.Text.{str_before}
use accounting_tool.FixedCosts.{FixedCostEntry}
use accounting_tool.Decimal.Laws.{plus_assoc, plus_comm, plus_zero, zero_plus, plus_swap}
use accounting_tool.Prelude.Dict.{insert, group_by, get_or, lookup, lookup-cons_past}
use accounting_tool.Calendar.{Date}
use accounting_tool.Margin.Day.{segment_margins_from_items}
use accounting_tool.Margin.Range.{DayMargins}
use accounting_tool.Decimal.{Money, plus, total, zero_money}
use accounting_tool.PeriodReview.{
  period_day, flagged_item, aggregate_flagged, period_from, PeriodReview, cogs_of, revenue_of,
  counted_rows, flagged_rows, is_counted,
}
use accounting_tool.Types.{SegmentMargin, ItemMargin, excluded_from_totals}
use accounting_tool.Prelude.{
  List, String, map, ◌≡◌, collect, [], sym, ◌++◌, ◌∙◌, ap, ◌∷◌, map-append, refl, Bool-cases, keep,
  ◌=?◌, ap₂, inl, string_eq, inr, false,
}

plus_middle : (a b c d : Money) → plus (plus a b) (plus c d) ≡ plus (plus a c) (plus b d)
plus_middle a b c d =
    plus_assoc a b (plus c d)
    ∙ ap (plus a) (sym (plus_assoc b c d) ∙ ap (λ t. plus t d) (plus_comm b c) ∙ plus_assoc c b d)
    ∙ sym (plus_assoc a c (plus b d))

revenue_of-append :
    (xs ys : List ItemMargin) → revenue_of (xs ++ ys) ≡ plus (revenue_of xs) (revenue_of ys)
revenue_of-append xs ys =
    ap total (map-append (λ im. im.revenue) xs ys)
    ∙ total-append (map (λ im. im.revenue) xs) (map (λ im. im.revenue) ys)

cogs_of-append : (xs ys : List ItemMargin) → cogs_of (xs ++ ys) ≡ plus (cogs_of xs) (cogs_of ys)
cogs_of-append xs ys =
    ap total (map-append (λ im. im.cogs) xs ys)
    ∙ total-append (map (λ im. im.cogs) xs) (map (λ im. im.cogs) ys)

abbrev day_revenues : List DayMargins → List Money
day_revenues slices = map (λ d. d.revenue) (map period_day slices)

abbrev day_cogs_of : List DayMargins → List Money
day_cogs_of slices = map (λ d. d.cogs) (map period_day slices)

days_revenue :
    (slices : List DayMargins)
    → total (day_revenues slices)
      ≡ plus (revenue_of (counted_rows slices)) (revenue_of (flagged_rows slices))
unfolding period_day
days_revenue [] = total-nil ∙ sym (ap₂ plus total-nil total-nil ∙ plus_zero zero_money)
days_revenue (slice ∷ slices) =
    let rows = slice.item_margins in
    total-cons (revenue_of rows) (day_revenues slices)
    ∙ ap₂ plus (sym (total-splits (λ im. im.revenue) excluded_from_totals rows))
        (days_revenue slices)
    ∙ plus_middle (revenue_of (keep is_counted rows)) (revenue_of (keep excluded_from_totals rows))
        (revenue_of (counted_rows slices)) (revenue_of (flagged_rows slices))
    ∙ sym (
        ap₂ plus (revenue_of-append (keep is_counted rows) (counted_rows slices))
          (revenue_of-append (keep excluded_from_totals rows) (flagged_rows slices)))

days_cogs : (slices : List DayMargins) → total (day_cogs_of slices) ≡ cogs_of (counted_rows slices)
unfolding period_day
days_cogs [] = refl
days_cogs (slice ∷ slices) =
    total-cons (cogs_of (keep is_counted slice.item_margins)) (day_cogs_of slices)
    ∙ ap (plus (cogs_of (keep is_counted slice.item_margins))) (days_cogs slices)
    ∙ sym (cogs_of-append (keep is_counted slice.item_margins) (counted_rows slices))

-- Rows grouped by item keep their revenue.
abbrev pub groups_revenue : List (String × List ItemMargin) → Money
groups_revenue d = total (map (λ p. revenue_of p.1) d)

single_revenue : (im : ItemMargin) → revenue_of (im ∷ []) ≡ im.revenue
single_revenue im = total-cons im.revenue [] ∙ ap (plus im.revenue) total-nil ∙ plus_zero im.revenue

insert_past :
    (k j : String) (v w : List ItemMargin) (d : List (String × List ItemMargin))
    → (k =? j) ≡ false
    → insert k v ((j, w) ∷ d) ≡ (j, w) ∷ insert k v d
insert_past k j v w d h = rw h refl

groups_revenue-insert :
    (k : String) (im : ItemMargin) (d : List (String × List ItemMargin))
    → groups_revenue (insert k (get_or k [] d ++ (im ∷ [])) d) ≡ plus (groups_revenue d) im.revenue
groups_revenue-insert k im [] =
    total-cons (revenue_of (im ∷ [])) []
    ∙ ap₂ plus (single_revenue im) total-nil
    ∙ plus_comm im.revenue zero_money
    ∙ ap (λ t. plus t im.revenue) (sym total-nil)
groups_revenue-insert k im ((j, rows) ∷ d) = elim (Bool-cases (k =? j)) [
  | inl here ↦
      let others = map (λ p. revenue_of p.1) d in
      rw (here, get_or, lookup)
        (total-cons (revenue_of (rows ++ (im ∷ []))) others
          ∙ ap (λ t. plus t (total others))
              (revenue_of-append rows (im ∷ []) ∙ ap (plus (revenue_of rows)) (single_revenue im))
          ∙ plus_swap (revenue_of rows) im.revenue (total others)
          ∙ ap (λ t. plus t im.revenue) (sym (total-cons (revenue_of rows) others)))
  | inr past ↦
      let later : get_or k [] ((j, rows) ∷ d) ≡ get_or k [] d =
        rw (get_or, lookup-cons_past k j rows d past) refl in
      let grown = insert k (get_or k [] d ++ (im ∷ [])) d in
      ap (λ g. groups_revenue (insert k (g ++ (im ∷ [])) ((j, rows) ∷ d))) later
      ∙ ap groups_revenue (insert_past k j (get_or k [] d ++ (im ∷ [])) rows d past)
      ∙ total-cons (revenue_of rows) (map (λ p. revenue_of p.1) grown)
      ∙ ap (plus (revenue_of rows)) (groups_revenue-insert k im d)
      ∙ sym (plus_assoc (revenue_of rows) (groups_revenue d) im.revenue)
      ∙ ap (λ t. plus t im.revenue)
          (sym (total-cons (revenue_of rows) (map (λ p. revenue_of p.1) d)))
]

pub groups_revenue-group_by :
    (rows : List ItemMargin) (d : List (String × List ItemMargin))
    → groups_revenue (group_by (λ im. im.item_id) rows d)
      ≡ plus (groups_revenue d) (revenue_of rows)
groups_revenue-group_by [] d =
    sym (ap (plus (groups_revenue d)) total-nil ∙ plus_zero (groups_revenue d))
groups_revenue-group_by (im ∷ rows) d =
    groups_revenue-group_by rows (insert im.item_id (get_or im.item_id [] d ++ (im ∷ [])) d)
    ∙ ap (λ t. plus t (revenue_of rows)) (groups_revenue-insert im.item_id im d)
    ∙ plus_assoc (groups_revenue d) im.revenue (revenue_of rows)
    ∙ ap (plus (groups_revenue d)) (sym (total-cons im.revenue (map (λ x. x.revenue) rows)))

flagged_items_revenue :
    (l : List (String × List ItemMargin))
    → total (map (λ f. f.revenue) (collect flagged_item l)) ≡ groups_revenue l
unfolding flagged_item
flagged_items_revenue [] = refl
flagged_items_revenue ((k, []) ∷ l) =
    let others = map (λ p. revenue_of p.1) l in
    flagged_items_revenue l
    ∙ sym (
        total-cons (total []) others
        ∙ ap (λ t. plus t (total others)) total-nil
        ∙ zero_plus (total others))
flagged_items_revenue ((k, im ∷ rows) ∷ l) =
    total-cons (revenue_of (im ∷ rows)) (map (λ f. f.revenue) (collect flagged_item l))
    ∙ ap (plus (revenue_of (im ∷ rows))) (flagged_items_revenue l)
    ∙ sym (total-cons (revenue_of (im ∷ rows)) (map (λ p. revenue_of p.1) l))

-- The rows that ask for attention account for the whole of the flagged revenue.
aggregate_flagged-revenue :
    (rows : List ItemMargin)
    → total (map (λ f. f.revenue) (aggregate_flagged rows)) ≡ revenue_of rows
unfolding aggregate_flagged
aggregate_flagged-revenue rows =
    let groups = group_by (λ im. im.item_id) rows [] in
    let by_id = λ (a b : String × List ItemMargin). str_before a.0 b.0 in
    flagged_items_revenue (sort by_id groups)
    ∙ total-map_perm (λ p. revenue_of p.1) (sort by_id groups) groups (sort-perm by_id groups)
    ∙ groups_revenue-group_by rows []
    ∙ ap (λ t. plus t (revenue_of rows)) total-nil
    ∙ zero_plus (revenue_of rows)

abbrev pub segments_total : (SegmentMargin → Money) → PeriodReview → Money
segments_total part r = total (map part r.segment_margins)

-- The figures of a period agree: its revenue and its COGS are the sums of those of its days; the
-- two segments' revenue and their flagged revenue come to the whole revenue; and the flagged
-- revenue is both what the segments flag and what the items that need attention account for.
pub period_from-days :
    (start stop : Date) (entries : List FixedCostEntry) (slices : List DayMargins)
    → let r = period_from start stop entries slices in
      (total (map (λ d. d.revenue) r.days) ≡ r.revenue)
      × ((total (map (λ d. d.cogs) r.days) ≡ r.cogs)
          × ((plus (segments_total (λ s. s.revenue) r) (segments_total (λ s. s.flagged_revenue) r)
                ≡ r.revenue)
              × ((segments_total (λ s. s.flagged_revenue) r ≡ r.flagged_revenue)
                  × (total (map (λ f. f.revenue) r.needs_attention) ≡ r.flagged_revenue))))
unfolding period_from segment_margins_from_items
period_from-days start stop entries slices =
    let counted = counted_rows slices in
    let flagged = flagged_rows slices in
    let b = final counted flagged in
    let whole_revenue = sym (revenue_of-append counted flagged) in
    let flags = two b.cafe_bucket.flagged b.bar_bucket.flagged ∙ final_flagged counted flagged in
    (
      days_revenue slices ∙ whole_revenue,
      (
        days_cogs slices,
        (
          ap₂ plus (two b.cafe_bucket.revenue b.bar_bucket.revenue ∙ final_revenue counted flagged)
                flags
              ∙ whole_revenue,
          (flags, aggregate_flagged-revenue flagged),
        ),
      ),
    )
