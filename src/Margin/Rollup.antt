-- ===== src/Margin/Rollup.antt =====
-- How the rows of a day roll up in margin.py: the segments and the headline agree.
use accounting_tool.Calendar.{Date}
use accounting_tool.Decimal.Laws.{plus_swap, plus_zero, zero_plus, plus_assoc, plus_comm}
use accounting_tool.Decimal.Sums.{total-nil, total-cons}
use accounting_tool.Decimal.{total, Money, zero_money, plus}
use accounting_tool.Margin.Day.{
  Bucket, roll_up, Buckets, change_bucket, flag_row, daily_margin_from, empty_segment_buckets,
  count_row, segment_margins_from_items,
}
use accounting_tool.Types.{
  ItemMargin, Segment, cafe, bar, SegmentMargin, DailyMargin, excluded_from_totals,
}
use accounting_tool.Prelude.{
  List, Bool, map, ◌≡◌, sym, keep, ◌∷◌, ap, not, ◌∙◌, Bool-cases, [], inl, inr, refl, ap₂,
}

abbrev both : (Bucket → Money) → Buckets → Money
both part b = plus (part b.cafe_bucket) (part b.bar_bucket)

-- A change that adds to a part of a segment's bucket adds to the sum over both.
both-change :
    (part : Bucket → Money) (f : Bucket → Bucket) (x : Money) (s : Segment) (b : Buckets)
    → ((c : Bucket) → part (f c) ≡ plus (part c) x)
    → both part (change_bucket s f b) ≡ plus (both part b) x
both-change part f x cafe b h =
    ap (λ t. plus t (part b.bar_bucket)) (h b.cafe_bucket)
    ∙ plus_swap (part b.cafe_bucket) x (part b.bar_bucket)
both-change part f x bar b h =
    ap (plus (part b.cafe_bucket)) (h b.bar_bucket)
    ∙ sym (plus_assoc (part b.cafe_bucket) (part b.bar_bucket) x)

both-roll_up :
    (part : Bucket → Money) (change : ItemMargin → Bucket → Bucket) (amount : ItemMargin → Money)
    → ((row : ItemMargin) (c : Bucket) → part (change row c) ≡ plus (part c) (amount row))
    → (rows : List ItemMargin) (b : Buckets)
    → both part (roll_up change rows b) ≡ plus (both part b) (total (map amount rows))
unfolding roll_up
both-roll_up part change amount h [] b =
    sym (ap (plus (both part b)) total-nil ∙ plus_zero (both part b))
both-roll_up part change amount h (row ∷ rows) b =
    both-roll_up part change amount h rows (change_bucket row.segment (change row) b)
    ∙ ap (λ t. plus t (total (map amount rows)))
        (both-change part (change row) (amount row) row.segment b (h row))
    ∙ plus_assoc (both part b) (amount row) (total (map amount rows))
    ∙ ap (plus (both part b)) (sym (total-cons (amount row) (map amount rows)))

no_amounts : (rows : List ItemMargin) → total (map (λ _. zero_money) rows) ≡ zero_money
no_amounts [] = total-nil
no_amounts (row ∷ rows) =
    total-cons zero_money (map (λ _. zero_money) rows) ∙ zero_plus _ ∙ no_amounts rows

-- Rows that a test splits carry the sum of both parts.
pub total-splits :
    (amount : ItemMargin → Money) (p : ItemMargin → Bool) (rows : List ItemMargin)
    → plus (total (map amount (keep (λ r. not (p r)) rows))) (total (map amount (keep p rows)))
      ≡ total (map amount rows)
total-splits amount p [] = ap (λ t. plus t (total [])) total-nil ∙ zero_plus (total [])
total-splits amount p (row ∷ rows) =
    let ih = total-splits amount p rows in
    let x = amount row in
    let ins = map amount (keep p rows) in
    let outs = map amount (keep (λ r. not (p r)) rows) in
    elim (Bool-cases (p row)) [
      | inl a ↦
          rw (a, total-cons x ins, total-cons x (map amount rows), ← ih)
            (sym (plus_assoc (total outs) x (total ins))
              ∙ ap (λ t. plus t (total ins)) (plus_comm (total outs) x)
              ∙ plus_assoc x (total outs) (total ins))
      | inr a ↦
          rw (a, total-cons x outs, total-cons x (map amount rows), ← ih)
            (plus_assoc x (total outs) (total ins))
    ]

pub two : (x y : Money) → total (x ∷ y ∷ []) ≡ plus x y
two x y =
    total-cons x (y ∷ []) ∙ ap (plus x) (total-cons y [] ∙ ap (plus y) total-nil ∙ plus_zero y)

nothing : both (λ c. c.revenue) empty_segment_buckets ≡ zero_money
nothing = plus_zero zero_money

module _ (counted flagged : List ItemMargin) where
  abbrev pub first : Buckets
  first = roll_up count_row counted empty_segment_buckets

  abbrev pub final : Buckets
  final = roll_up flag_row flagged first

  -- The flagged rows leave alone what the counted ones add to.
  counted_sum :
      (part : Bucket → Money) (amount : ItemMargin → Money)
      → ((row : ItemMargin) (c : Bucket) → part (flag_row row c) ≡ part c)
      → ((row : ItemMargin) (c : Bucket) → part (count_row row c) ≡ plus (part c) (amount row))
      → both part empty_segment_buckets ≡ zero_money
      → both part final ≡ total (map amount counted)
  counted_sum part amount kept added h =
      both-roll_up part flag_row (λ _. zero_money) (λ row c. kept row c ∙ sym (plus_zero (part c)))
        flagged first
      ∙ ap (plus (both part first)) (no_amounts flagged)
      ∙ plus_zero (both part first)
      ∙ both-roll_up part count_row amount added counted empty_segment_buckets
      ∙ ap (λ t. plus t (total (map amount counted))) h
      ∙ zero_plus (total (map amount counted))

  pub final_revenue : both (λ c. c.revenue) final ≡ total (map (λ r. r.revenue) counted)
  final_revenue =
      counted_sum (λ c. c.revenue) (λ r. r.revenue) (λ row c. refl) (λ row c. refl) nothing

  final_cogs : both (λ c. c.cogs) final ≡ total (map (λ r. r.cogs) counted)
  final_cogs = counted_sum (λ c. c.cogs) (λ r. r.cogs) (λ row c. refl) (λ row c. refl) nothing

  pub final_flagged : both (λ c. c.flagged) final ≡ total (map (λ r. r.revenue) flagged)
  final_flagged =
      both-roll_up (λ c. c.flagged) flag_row (λ r. r.revenue) (λ row c. refl) flagged first
      ∙ ap (λ t. plus t (total (map (λ r. r.revenue) flagged)))
          (both-roll_up (λ c. c.flagged) count_row (λ _. zero_money)
              (λ row c. sym (plus_zero c.flagged)) counted empty_segment_buckets
            ∙ ap (plus (both (λ c. c.flagged) empty_segment_buckets)) (no_amounts counted)
            ∙ plus_zero (both (λ c. c.flagged) empty_segment_buckets)
            ∙ nothing)
      ∙ zero_plus (total (map (λ r. r.revenue) flagged))

-- What the segment cards of a day sum to.
abbrev pub over_segments : (SegmentMargin → Money) → DailyMargin → Money
over_segments part m = total (map part m.segment_margins)

-- The two segments' revenue and their flagged revenue come to the headline revenue, the flagged
-- revenue alone to the headline's share of it, and their costs to the headline's COGS.
pub daily_margin_from-segments :
    (day : Date) (rows : List ItemMargin)
    → let m = daily_margin_from day rows in
      (plus (over_segments (λ s. s.revenue) m) (over_segments (λ s. s.flagged_revenue) m)
        ≡ m.total_revenue)
      × (over_segments (λ s. s.flagged_revenue) m ≡ m.flagged_revenue)
      × (over_segments (λ s. s.variable_costs) m ≡ m.total_cogs)
unfolding daily_margin_from segment_margins_from_items
daily_margin_from-segments day rows =
    let counted = keep (λ im. not (excluded_from_totals im)) rows in
    let flagged = keep excluded_from_totals rows in
    let b = final counted flagged in
    let flags = two b.cafe_bucket.flagged b.bar_bucket.flagged ∙ final_flagged counted flagged in
    (
      ap₂ plus (two b.cafe_bucket.revenue b.bar_bucket.revenue ∙ final_revenue counted flagged)
            flags
          ∙ total-splits (λ r. r.revenue) excluded_from_totals rows,
      flags,
      two b.cafe_bucket.cogs b.bar_bucket.cogs ∙ final_cogs counted flagged,
    )
