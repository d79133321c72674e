-- ===== src/MonthlyPnl/Tests.antt =====
-- The theorems about monthly_pnl.py at a small month.
use accounting_tool.Segments.{segment_of_sale}
use accounting_tool.Recipes.{for_item}
use accounting_tool.MonthlyPnl.Laws.{
  month_sales, revenue_by_segment-total, monthly_pnl_from-balance,
}
use accounting_tool.Prelude.Int.{pos}
use accounting_tool.Decimal.Value.{Same}
use accounting_tool.Types.{Segment, MonthlyPnl, Sale, Purchase, cafe, rent}
use accounting_tool.Decimal.{arithmetic, plus, whole, total, Money, zero_money}
use accounting_tool.Calendar.{Date, in_month, before, last_day}
use accounting_tool.MonthlyPnl.{
  MonthInputs, monthly_pnl_from, cash_flow_view, revenue_by_segment, compute_monthly_pnl,
  accrual_cogs_by_segment, bar_cogs, cafe_cogs, add_revenue, sale_revenue, add_sale,
}
use accounting_tool.Prelude.{ℕ, Option, String, ◌≡◌, some, [], map, ◌∷◌, none, refl}

abbrev day : ℕ → ℕ → Date
day m d = record { year = 2026; month = m; day = d }

abbrev sale : ℕ → Option Segment → ℕ → Sale
sale d segment price = record {
  item_id = "latte";
  timestamp = day 5 d;
  sell_price = whole price;
  quantity = pos 2;
  segment = segment;
}

abbrev purchase : Date → String → ℕ → Purchase
purchase on supplier_id amount = record {
  supplier_id = supplier_id;
  invoice_date = on;
  lines = [];
  vat = zero_money;
  total = whole amount;
}

abbrev inputs : MonthInputs
inputs = record {
  sales = sale 1 (some cafe) 100 ∷ sale 31 none 80 ∷ [];
  recipes = record { by_sku = []; item_to_sku = [] };
  cost = [];
  brands = [];
  weigh_ins = [];
  cafe_items = [];
  cafe_beginning = [];
  cafe_ending = [];
  purchases =
      purchase (day 5 9) "makro" 300
      ∷ purchase (day 5 2) "aro" 40
      ∷ purchase (day 6 1) "aro" 7
      ∷ [];
  fixed_costs = record { amount = whole 50; category = rent; period = (2026, 5) } ∷ [];
}

program : Unit {0}
unfolding arithmetic compute_monthly_pnl monthly_pnl_from accrual_cogs_by_segment bar_cogs cafe_cogs
    cash_flow_view revenue_by_segment add_revenue add_sale for_item segment_of_sale in_month before
    last_day
program = tt

abbrev profit : Option MonthlyPnl → Money
profit none = zero_money
profit (some pnl) = pnl.entity_net_profit

net_profit : profit (compute_monthly_pnl inputs (2026, 5)) ≡ whole 310
unfolding program
net_profit = refl

monthly_pnl_from-balance_example :
    let pnl =
      monthly_pnl_from inputs (2026, 5) (record { cafe_money = whole 30; bar_money = whole 60 }) in
    Same
      (plus (plus pnl.entity_net_profit pnl.total_fixed_costs) (plus (whole 30) (whole 60)))
      (total (map sale_revenue (month_sales (2026, 5) inputs.sales)))
monthly_pnl_from-balance_example =
    monthly_pnl_from-balance inputs (2026, 5)
      (record { cafe_money = whole 30; bar_money = whole 60 })

revenue_by_segment-total_example :
    let r = revenue_by_segment inputs.sales inputs.recipes (2026, 5) in
    plus r.cafe_money r.bar_money ≡ total (map sale_revenue (month_sales (2026, 5) inputs.sales))
revenue_by_segment-total_example = revenue_by_segment-total inputs.sales inputs.recipes (2026, 5)
