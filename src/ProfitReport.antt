-- ===== src/ProfitReport.antt =====
-- profit_report.py: the two lenses on a month, and the bestsellers.
pub mod Laws
mod Tests
use accounting_tool.Prelude.{◌>>=◌, keep}
use accounting_tool.Prelude.Dict.{group_by}
use accounting_tool.Prelude.Sort.{sort}
use accounting_tool.Prelude.Text.{str_before}
use accounting_tool.Types.{ItemMargin}
use accounting_tool.CashSpend.{CashSpendForPeriod}
use accounting_tool.Prelude.Int.{ℤ}
use accounting_tool.Calendar.{before, days_in_month, Date, not_after}
use accounting_tool.PeriodReview.{PeriodReview, total_units}
use accounting_tool.Decimal.{less, Decimal, Money, same, minus, of_int, total, zero_money}
use accounting_tool.Prelude.{
  ℕ, Bool, List, String, not, ◌||◌, [], Option, collect, ◌&&◌, none, suc, some, if◌then◌else◌, ◌=?◌,
  ◌∷◌, false, zero, ◌==◌, string_eq, map, any,
}

pub record ProfitTiles : Type 0 where
  pub revenue : Money
  pub cash_basis_gp : Money
  pub recipe_cost_gm : Money
  pub net_profit : Money

pub record ProfitReport : Type 0 where
  pub review : PeriodReview
  pub cash_spend : CashSpendForPeriod
  pub tiles : ProfitTiles
  pub in_progress : Bool

unfoldable pub is_month_in_progress : Date → Date → Date → Bool
is_month_in_progress start stop today =
    if not (not_after start today && not_after today stop)
    then false
    else if not (start.day == 1)
    then false
    else if not (stop.day == days_in_month start.year start.month)
    then false
    else (stop.year == start.year && stop.month == start.month)

pub record ItemSalesTotal : Type 0 where
  pub item_id : String
  pub name : String
  pub units_sold : ℤ
  pub revenue : Money
  pub cm_unknown : Bool

-- The total of an item from its rows, of which there is at least one.
unfoldable pub item_total : String × List ItemMargin → Option ItemSalesTotal
item_total (item_id, []) = none
item_total (item_id, first ∷ rest) = some (record {
  item_id = item_id;
  name = first.name;
  units_sold = total_units (map (λ im. im.units_sold) (first ∷ rest));
  revenue = total (map (λ im. im.revenue) (first ∷ rest));
  cm_unknown = any (λ im. im.unmapped || im.unknown_price) (first ∷ rest);
})

unfoldable pub aggregate_item_sales : List ItemMargin → List ItemSalesTotal
unfolding item_total
aggregate_item_sales rows =
    collect item_total (sort (λ a b. str_before a.0 b.0) (group_by (λ im. im.item_id) rows []))

-- `_metric_value`, none where it raises
unfoldable pub metric_value : String → ItemSalesTotal → Option Decimal
metric_value metric t =
    if metric =? "revenue"
    then some t.revenue
    else if metric =? "units"
    then some (of_int t.units_sold)
    else none

abbrev pub has_sold : ItemSalesTotal → Bool
has_sold t = not (same (of_int t.units_sold) zero_money && same t.revenue zero_money)

-- The keys of the sort, which are made for every item before it.
unfoldable pub with_keys : String → List ItemSalesTotal → Option (List (Decimal × ItemSalesTotal))
unfolding metric_value
with_keys metric [] = some []
with_keys metric (t ∷ items) = do
  value ← metric_value metric t
  keyed ← with_keys metric items
  some ((value, t) ∷ keyed)

-- The larger value first, and of equal ones the smaller id.
abbrev pub ranks_before : Decimal × ItemSalesTotal → Decimal × ItemSalesTotal → Bool
ranks_before a b = less b.0 a.0 || same b.0 a.0 && str_before a.1.item_id b.1.item_id

abbrev pub take : {A : Type 0} → ℕ → List A → List A
take zero xs = []
take (suc n) [] = []
take (suc n) (x ∷ xs) = x ∷ take n xs

-- The callers pass a limit that is not negative.
unfoldable pub rank_bestsellers : List ItemSalesTotal → String → ℕ → Option (List ItemSalesTotal)
unfolding with_keys less same
rank_bestsellers items metric limit = do
  keyed ← with_keys metric (keep has_sold items)
  some (take limit (map (λ k. k.1) (sort ranks_before keyed)))

unfoldable pub build_profit_report : PeriodReview → CashSpendForPeriod → Date → ProfitReport
unfolding is_month_in_progress
build_profit_report review cash_spend today = record {
  review = review;
  cash_spend = cash_spend;
  tiles = record {
    revenue = review.revenue;
    cash_basis_gp = minus review.revenue cash_spend.total_spend;
    recipe_cost_gm = review.gross_margin;
    net_profit = review.net_profit;
  };
  in_progress = is_month_in_progress review.start review.stop today;
}
