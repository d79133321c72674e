-- ===== src/MonthlyPnl/Laws.antt =====
-- The sums of monthly_pnl.py agree with one another and with the sales.
use accounting_tool.Prelude.Sort.{sort-perm}
use accounting_tool.Decimal.Sums.{total-nil, total-map_perm, total-cons}
use accounting_tool.Decimal.Laws.{
  plus_swap, plus_comm, plus_assoc, plus_zero, zero_plus, plus_interchange,
}
use accounting_tool.Decimal.Congruence.{
  Same-trans, Same-of_eq, Same-plus-minus, Same-plus, Same-refl,
}
use accounting_tool.Decimal.Value.{Same}
use accounting_tool.Types.{Segment, cafe, bar}
use accounting_tool.Decimal.{Money, plus, minus, total, zero_money}
use accounting_tool.MonthlyPnl.{
  add_revenue, cash_flow_view, BySegment, monthly_pnl_from, revenue_by_segment, List, MonthInputs,
  add_to, RecipeCatalog, Sale, Purchase, map, keep, sale_revenue, no_money, collect,
  cash_flow_entry, ◌∷◌, segment_of_sale, for_item, costs_of_month, entry_before, [], add_sale, true,
  false,
}
use accounting_tool.Calendar.{YearMonth, in_month}
use accounting_tool.Prelude.{◌≡◌, sym, ap, ◌∙◌, Bool-cases, inl, inr, refl, subst, arith}

abbrev both : BySegment → Money
both b = plus b.cafe_money b.bar_money

both-add_to : (s : Segment) (x : Money) (b : BySegment) → both (add_to s x b) ≡ plus (both b) x
both-add_to cafe x b = plus_swap b.cafe_money x b.bar_money
both-add_to bar x b = sym (plus_assoc b.cafe_money b.bar_money x)

-- The sales of the month.
abbrev pub month_sales : YearMonth → List Sale → List Sale
month_sales month sales = keep (λ s. in_month month s.timestamp) sales

both-add_sale :
    (recipes : RecipeCatalog) (month : YearMonth) (b : BySegment) (sale : Sale)
    → in_month month sale.timestamp ≡ true
    → both (add_sale recipes month b sale) ≡ plus (both b) (sale_revenue sale)
unfolding add_sale
both-add_sale recipes month b sale h =
    rw h (both-add_to (segment_of_sale sale (for_item recipes sale.item_id)) (sale_revenue sale) b)

add_sale_outside :
    (recipes : RecipeCatalog) (month : YearMonth) (b : BySegment) (sale : Sale)
    → in_month month sale.timestamp ≡ false
    → add_sale recipes month b sale ≡ b
unfolding add_sale
add_sale_outside recipes month b sale h = rw h

both-add_revenue :
    (recipes : RecipeCatalog) (month : YearMonth) (b : BySegment) (sales : List Sale)
    → both (add_revenue recipes month b sales)
      ≡ plus (both b) (total (map sale_revenue (month_sales month sales)))
unfolding add_revenue
both-add_revenue recipes month b [] = sym (ap (plus (both b)) total-nil ∙ plus_zero (both b))
both-add_revenue recipes month b (sale ∷ sales) =
    both-add_revenue recipes month (add_sale recipes month b sale) sales
    ∙ elim (Bool-cases (in_month month sale.timestamp)) [
      | inl inside ↦
          let rest = map sale_revenue (month_sales month sales) in
          rw (inside, total-cons (sale_revenue sale) rest)
            (ap (λ t. plus t (total rest)) (both-add_sale recipes month b sale inside)
              ∙ plus_assoc (both b) (sale_revenue sale) (total rest))
      | inr outside ↦ rw outside (
          ap (λ t. plus (both t) (total (map sale_revenue (month_sales month sales))))
            (add_sale_outside recipes month b sale outside))
    ]

-- The revenues of the two segments come to the revenue of all sales of the month: no sale is lost,
-- mapped or not, and none is counted in both.
pub revenue_by_segment-total :
    (sales : List Sale) (recipes : RecipeCatalog) (month : YearMonth)
    → let r = revenue_by_segment sales recipes month in
      plus r.cafe_money r.bar_money ≡ total (map sale_revenue (month_sales month sales))
unfolding revenue_by_segment
revenue_by_segment-total sales recipes month =
    both-add_revenue recipes month no_money sales
    ∙ ap (λ t. plus t (total (map sale_revenue (month_sales month sales)))) (plus_zero zero_money)
    ∙ zero_plus (total (map sale_revenue (month_sales month sales)))

-- A segment's margin and its costs.
margin_back : (r c : Money) → Same (plus (minus r c) c) r
margin_back r c =
    Same-trans _ (plus c (minus r c)) _ (Same-of_eq (plus_comm (minus r c) c)) (Same-plus-minus c r)

-- The net profit, the fixed costs and the COGS of both segments come to the revenue of the month.
pub monthly_pnl_from-balance :
    (i : MonthInputs) (month : YearMonth) (cogs : BySegment)
    → let pnl = monthly_pnl_from i month cogs in
      Same
        (plus
          (plus pnl.entity_net_profit pnl.total_fixed_costs)
          (plus cogs.cafe_money cogs.bar_money))
        (total (map sale_revenue (month_sales month i.sales)))
unfolding monthly_pnl_from
monthly_pnl_from-balance i month cogs =
    let r = revenue_by_segment i.sales i.recipes month in
    let x = minus r.cafe_money cogs.cafe_money in
    let y = minus r.bar_money cogs.bar_money in
    let fixed = total (map (λ fc. fc.amount) (costs_of_month month i.fixed_costs)) in
    let margins : total (x ∷ y ∷ []) ≡ plus x y =
      total-cons x (y ∷ []) ∙ ap (plus x) (total-cons y [] ∙ ap (plus y) total-nil ∙ plus_zero y) in
    let costs = plus cogs.cafe_money cogs.bar_money in
    rw (margins, ← revenue_by_segment-total i.sales i.recipes month)
      (Same-trans (plus (plus (minus (plus x y) fixed) fixed) costs) (plus (plus x y) costs)
        (plus r.cafe_money r.bar_money)
        (Same-plus _ (plus x y) costs costs (margin_back (plus x y) fixed) (Same-refl costs))
        (subst (λ t. Same t (plus r.cafe_money r.bar_money))
          (plus_interchange x cogs.cafe_money y cogs.bar_money)
          (Same-plus _ r.cafe_money _ r.bar_money (margin_back r.cafe_money cogs.cafe_money)
            (margin_back r.bar_money cogs.bar_money))))

-- The payables of the month are the totals of the purchases invoiced in it.
pub cash_flow_view-total :
    (month : YearMonth) (purchases : List Purchase)
    → (cash_flow_view month purchases).total_payables
      ≡ total (map (λ p. p.total) (keep (λ p. in_month month p.invoice_date) purchases))
unfolding cash_flow_view
cash_flow_view-total month purchases =
    total-map_perm (λ e. e.total) _ _
      (sort-perm entry_before (collect (cash_flow_entry month) purchases))
    ∙ ap total (invoiced purchases)
  where
    invoiced :
        (l : List Purchase)
        → map (λ e. e.total) (collect (cash_flow_entry month) l)
          ≡ map (λ p. p.total) (keep (λ p. in_month month p.invoice_date) l)
    invoiced [] = refl
    invoiced (p ∷ l) = ground (arith, invoiced l)
