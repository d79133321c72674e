-- ===== src/MonthlyPnl.antt =====
-- monthly_pnl.py: the accrual profit and loss of a month.
pub mod Laws
mod Tests
use accounting_tool.Prelude.Text.{str_before}
use accounting_tool.Segments.{segment_of_sale}
use accounting_tool.CafeStock.{compute_cafe_consumed_cogs}
use accounting_tool.KegInventory.{compute_keg_inventory}
use accounting_tool.Prelude.Sort.{sort}
use accounting_tool.Cost.{CostBook}
use accounting_tool.Decimal.{zero_money, Money, times, plus, of_int, total, minus, whole}
use accounting_tool.Calendar.{YearMonth, before, days_in_month, in_month, last_day, date_eq}
use accounting_tool.Recipes.{RecipeCatalog, for_item}
use accounting_tool.Types.{
  Sale, CashFlowEntry, Segment, cafe, MonthlyPnl, Purchase, SegmentAccrualPnl, FixedCost, KegBrand,
  CashFlowView, bar, KegWeighIn, daily_profit_target_thb, CafeItem, CafeStockCount,
}
use accounting_tool.Prelude.{
  List, if◌then◌else◌, Bool, Option, ◌∷◌, some, not, keep, true, map, false, ◌||◌, [], ◌=?◌, none,
  ◌&&◌, collect, pair_eq, nat_eq,
}

-- A dict over the two segments, both always present.
pub record BySegment : Type 0 where
  pub cafe_money : Money
  pub bar_money : Money

abbrev pub of_segment : BySegment → Segment → Money
of_segment b cafe = b.cafe_money
of_segment b bar = b.bar_money

abbrev pub add_to : Segment → Money → BySegment → BySegment
add_to cafe x b = record b { cafe_money = plus b.cafe_money x }
add_to bar x b = record b { bar_money = plus b.bar_money x }

abbrev pub no_money : BySegment
no_money = record { cafe_money = zero_money; bar_money = zero_money }

-- `sorted(Segment, key=...)`: cafe first.
abbrev pub segment_order : List Segment
segment_order = cafe ∷ bar ∷ []

abbrev pub sale_revenue : Sale → Money
sale_revenue sale = times sale.sell_price (of_int sale.quantity)

-- The body of the loop over the sales.
unfoldable pub add_sale : RecipeCatalog → YearMonth → BySegment → Sale → BySegment
add_sale recipes month buckets sale =
    if not (in_month month sale.timestamp)
    then buckets
    else add_to (segment_of_sale sale (for_item recipes sale.item_id)) (sale_revenue sale) buckets

unfoldable pub add_revenue : RecipeCatalog → YearMonth → BySegment → List Sale → BySegment
add_revenue recipes month buckets [] = buckets
add_revenue recipes month buckets (sale ∷ sales) =
    add_revenue recipes month (add_sale recipes month buckets sale) sales

unfoldable pub revenue_by_segment : List Sale → RecipeCatalog → YearMonth → BySegment
unfolding add_revenue
revenue_by_segment sales recipes month = add_revenue recipes month no_money sales

abbrev pub cash_flow_entry : YearMonth → Purchase → Option CashFlowEntry
cash_flow_entry month purchase =
    if not (in_month month purchase.invoice_date)
    then none
    else some (record {
      supplier_id = purchase.supplier_id;
      invoice_date = purchase.invoice_date;
      total = purchase.total;
    })

-- By invoice date, then by supplier.
abbrev pub entry_before : CashFlowEntry → CashFlowEntry → Bool
entry_before a b =
    before a.invoice_date b.invoice_date
    || (a.invoice_date =? b.invoice_date) && str_before a.supplier_id b.supplier_id

unfoldable pub cash_flow_view : YearMonth → List Purchase → CashFlowView
cash_flow_view month purchases =
    let entries = sort entry_before (collect (cash_flow_entry month) purchases) in
    record { month = month; total_payables = total (map (λ e. e.total) entries); entries = entries }

-- The raw inputs, as the keyword arguments of `compute_monthly_pnl` name them.
pub record MonthInputs : Type 0 where
  pub sales : List Sale
  pub recipes : RecipeCatalog
  pub cost : CostBook
  pub brands : List KegBrand
  pub weigh_ins : List KegWeighIn
  pub cafe_items : List CafeItem
  pub cafe_beginning : List CafeStockCount
  pub cafe_ending : List CafeStockCount
  pub purchases : List Purchase
  pub fixed_costs : List FixedCost

abbrev pub is_empty {ℓ} : {A : Type ℓ} → List A → Bool
is_empty [] = true
is_empty (x ∷ xs) = false

-- The kegs' COGS, which raises where a density is zero.
unfoldable pub bar_cogs : MonthInputs → YearMonth → Option Money
bar_cogs i month =
    if is_empty i.brands
    then some zero_money
    else elim (compute_keg_inventory i.sales i.recipes i.cost i.brands i.weigh_ins
        (last_day month)) [ none ↦ none | some report ↦ some report.total_accrual_cogs ]

unfoldable pub cafe_cogs : MonthInputs → Money
cafe_cogs i =
    if is_empty i.cafe_items
    then zero_money
    else total (
        map (λ r. r.cogs)
          (compute_cafe_consumed_cogs i.cafe_beginning i.cafe_ending i.purchases i.cost
            i.cafe_items))

unfoldable pub accrual_cogs_by_segment : MonthInputs → YearMonth → Option BySegment
accrual_cogs_by_segment i month = elim (bar_cogs i month) [
  | none ↦ none
  | some kegs ↦ some (record { cafe_money = cafe_cogs i; bar_money = kegs })
]

abbrev pub segment_row : BySegment → BySegment → Segment → SegmentAccrualPnl
segment_row revenue cogs seg = record {
  segment = seg;
  revenue = of_segment revenue seg;
  accrual_cogs = of_segment cogs seg;
  contribution_margin = minus (of_segment revenue seg) (of_segment cogs seg);
}

abbrev pub costs_of_month : YearMonth → List FixedCost → List FixedCost
costs_of_month month costs = keep (λ fc. fc.period =? month) costs

-- The result, given the COGS of the segments.
unfoldable pub monthly_pnl_from : MonthInputs → YearMonth → BySegment → MonthlyPnl
monthly_pnl_from i month cogs =
    let revenue = revenue_by_segment i.sales i.recipes month in
    let segment_pnl = map (segment_row revenue cogs) segment_order in
    let month_fixed = costs_of_month month i.fixed_costs in
    let total_fixed = total (map (λ fc. fc.amount) month_fixed) in
    let total_cm = total (map (λ sp. sp.contribution_margin) segment_pnl) in
    let net_profit = minus total_cm total_fixed in
    let days = days_in_month month.0 month.1 in
    record {
      month = month;
      segment_pnl = segment_pnl;
      fixed_costs = month_fixed;
      total_fixed_costs = total_fixed;
      entity_net_profit = net_profit;
      goal = record {
        target = times daily_profit_target_thb (whole days);
        actual = net_profit;
        days_in_month = days;
      };
      cash_flow = cash_flow_view month i.purchases;
    }

unfoldable pub compute_monthly_pnl : MonthInputs → YearMonth → Option MonthlyPnl
compute_monthly_pnl i month = elim (accrual_cogs_by_segment i month) [
  | none ↦ none
  | some cogs ↦ some (monthly_pnl_from i month cogs)
]
