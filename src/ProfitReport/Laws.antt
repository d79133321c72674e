-- ===== src/ProfitReport/Laws.antt =====
-- What the figures of profit_report.py come to.
use accounting_tool.Decimal.Laws.{zero_plus}
use accounting_tool.Decimal.Sums.{total-cons, total-map_perm, total-nil}
use accounting_tool.Prelude.Sort.{sort, sort-perm}
use accounting_tool.Prelude.Text.{str_before}
use accounting_tool.Prelude.Dict.{group_by}
use accounting_tool.PeriodReview.{revenue_of}
use accounting_tool.PeriodReview.Laws.{groups_revenue, groups_revenue-group_by}
use accounting_tool.Calendar.Days.{IsDate}
use accounting_tool.Decimal.{total, plus}
use accounting_tool.Types.{ItemMargin}
use accounting_tool.Calendar.{last_day, before, Date, first_day, month_of, days_in_month, YearMonth}
use accounting_tool.ProfitReport.{aggregate_item_sales, is_month_in_progress, item_total}
use accounting_tool.Prelude.{
  List, String, map, ◌≡◌, collect, true, ◌∷◌, ◌↔◌, [], ◌∙◌, sym, ap, refl, string_eq, arith, false,
  ℕ, ◌≤◌, subst, ap₂,
}

item_totals_revenue :
    (l : List (String × List ItemMargin))
    → total (map (λ t. t.revenue) (collect item_total l)) ≡ groups_revenue l
unfolding item_total
item_totals_revenue [] = refl
item_totals_revenue ((k, []) ∷ l) =
    let others = map (λ p. revenue_of p.1) l in
    item_totals_revenue l
    ∙ sym (
        total-cons (total []) others
        ∙ ap (λ t. plus t (total others)) total-nil
        ∙ zero_plus (total others))
item_totals_revenue ((k, im ∷ rows) ∷ l) =
    total-cons (revenue_of (im ∷ rows)) (map (λ t. t.revenue) (collect item_total l))
    ∙ ap (plus (revenue_of (im ∷ rows))) (item_totals_revenue l)
    ∙ sym (total-cons (revenue_of (im ∷ rows)) (map (λ p. revenue_of p.1) l))

-- The totals of the items come to the revenue of the rows: no row is lost or counted twice when
-- the rows of a month are put together by item.
pub aggregate_item_sales-revenue :
    (rows : List ItemMargin)
    → total (map (λ t. t.revenue) (aggregate_item_sales rows)) ≡ revenue_of rows
unfolding aggregate_item_sales
aggregate_item_sales-revenue rows =
    let groups = group_by (λ im. im.item_id) rows [] in
    let by_id = λ (a b : String × List ItemMargin). str_before a.0 b.0 in
    item_totals_revenue (sort by_id groups)
    ∙ total-map_perm (λ p. revenue_of p.1) (sort by_id groups) groups (sort-perm by_id groups)
    ∙ groups_revenue-group_by rows []
    ∙ ap (λ t. plus t (revenue_of rows)) total-nil
    ∙ zero_plus (revenue_of rows)

in_progress_parts :
    (start stop today : Date)
    → is_month_in_progress start stop today ≡ true
    → (before today start ≡ false)
      × ((before stop today ≡ false)
          × ((start.day ≡ 1)
              × ((stop.day ≡ days_in_month start.year start.month)
                  × ((stop.year ≡ start.year) × (stop.month ≡ start.month)))))
unfolding is_month_in_progress
in_progress_parts start stop today h = ground (arith, h)

in_progress_whole :
    (start stop today : Date)
    → before today start ≡ false
    → before stop today ≡ false
    → start.day ≡ 1
    → stop.day ≡ days_in_month start.year start.month
    → stop.year ≡ start.year
    → stop.month ≡ start.month
    → is_month_in_progress start stop today ≡ true
unfolding is_month_in_progress
in_progress_whole start stop today a b c d e f = ground (arith, a, b, c, d, e, f)

-- What lies between two days of one month is in that month.
month_between :
    (a b c : Date)
    → before b a ≡ false
    → before c b ≡ false
    → c.year ≡ a.year
    → c.month ≡ a.month
    → (b.year ≡ a.year) × (b.month ≡ a.month)
unfolding before
month_between a b c h k e f = ground (arith, h, k, e, f)

not_before_day :
    (y m j k : ℕ)
    → k ≤ j
    → before (record { year = y; month = m; day = j }) (record { year = y; month = m; day = k })
      ≡ false
unfolding before
not_before_day y m j k h = ground (arith, h)

last_day_parts :
    (m : YearMonth) → last_day m ≡ record { year = m.0; month = m.1; day = days_in_month m.0 m.1 }
unfolding last_day
last_day_parts m = refl

same_date : (a b : Date) → a.year ≡ b.year → a.month ≡ b.month → a.day ≡ b.day → a ≡ b
same_date a b e f g = ground (arith, e, f, g)

from_whole :
    (start stop today : Date)
    → IsDate today
    → start ≡ first_day (month_of today)
    → stop ≡ record today { day = days_in_month today.year today.month }
    → is_month_in_progress start stop today ≡ true
from_whole start stop today h e f =
    in_progress_whole start stop today
      (subst (λ (d : Date). before today d ≡ false) (sym e)
        (not_before_day today.year today.month today.day 1 h.1.1.1.0))
      (subst (λ (d : Date). before d today ≡ false) (sym f)
        (not_before_day today.year today.month (days_in_month today.year today.month) today.day
          h.1.1.1.1))
      (ap (λ d. d.day) e)
      (ap (λ d. d.day) f ∙ sym (ap₂ days_in_month (ap (λ d. d.year) e) (ap (λ d. d.month) e)))
      (ap (λ d. d.year) f ∙ sym (ap (λ d. d.year) e))
      (ap (λ d. d.month) f ∙ sym (ap (λ d. d.month) e))

to_whole :
    (start stop today : Date)
    → is_month_in_progress start stop today ≡ true
    → (start ≡ first_day (month_of today))
      × (stop ≡ record today { day = days_in_month today.year today.month })
to_whole start stop today e =
    let (a, (b, (c, (d, (f, g))))) = in_progress_parts start stop today e in
    let inside = month_between start today stop a b f g in
    let days = d ∙ ap₂ days_in_month (sym inside.0) (sym inside.1) in
    (
      same_date start (first_day (month_of today)) (sym inside.0) (sym inside.1) c,
      same_date stop (record today { day = days_in_month today.year today.month })
          (f ∙ sym inside.0) (g ∙ sym inside.1) days,
    )

-- A range is the month in progress exactly when it runs from the first to the last day of the
-- month of today, for a `today` that exists.
pub is_month_in_progress_iff :
    (start stop today : Date)
    → IsDate today
    → (is_month_in_progress start stop today ≡ true)
      ↔ ((start ≡ first_day (month_of today)) × (stop ≡ last_day (month_of today)))
is_month_in_progress_iff start stop today h = (
  λ e.
      let parts = to_whole start stop today e in
      (parts.0, parts.1 ∙ sym (last_day_parts (month_of today))),
  λ e. from_whole start stop today h e.0 (e.1 ∙ last_day_parts (month_of today)),
)
