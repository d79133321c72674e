-- ===== src/Margin.antt =====
-- margin.py: the cost of a SKU through its recipes, and the margins of a day.
pub mod Resolver
pub mod Day
pub mod Range
pub mod Breakdown
pub mod Laws
pub mod Rollup
pub mod Costing
mod Tests
use accounting_tool.Prelude.Dict.{insert, lookup}
use accounting_tool.Segments.{segment_of_sale}
use accounting_tool.Prelude.Text.{str_before}
use accounting_tool.Types.{Segment, Sale, Recipe, ItemMargin, cafe, bar}
use accounting_tool.Prelude.Int.{ℤ, pos, ◌+ℤ◌}
use accounting_tool.Decimal.{
  Money, times, Decimal, of_int, zero_money, same, plus, minus, less, quantize, quotient, whole,
}
use accounting_tool.Calendar.{Date, date_eq}
use accounting_tool.Prelude.{
  pair_eq, string_eq, ℕ, Eq, String, Option, Bool, List, ◌≡◌, if◌then◌else◌, ◌∷◌, true, ◌||◌, ◌↔◌,
  none, ◌=?◌, [], not, ◌&&◌, some, false, string_eq, refl,
}

abbrev pub segment_beq : Segment → Segment → Bool
segment_beq cafe cafe = true
segment_beq bar bar = true
segment_beq _ _ = false

pub segment_beq_iff : (a b : Segment) → (segment_beq a b ≡ true) ↔ (a ≡ b)
segment_beq_iff cafe cafe = (λ h. refl, λ h. refl)
segment_beq_iff cafe bar = (λ h. cc, λ h. cc)
segment_beq_iff bar cafe = (λ h. cc, λ h. cc)
segment_beq_iff bar bar = (λ h. refl, λ h. refl)

instance abbrev pub segment_eq : Eq Segment
segment_eq = record { beq = segment_beq; beq_iff = segment_beq_iff }

-- `None` without revenue.
unfoldable pub gross_margin_pct : Money → Money → Option Decimal
gross_margin_pct gross_margin revenue =
    if same revenue zero_money
    then none
    else some (quantize 2 (times (quotient gross_margin revenue) (whole 100)))

-- `units`, `revenue` and `sell_price` of one key: the three dicts get their keys together.
pub record Tally : Type 0 where
  pub units : ℤ
  pub revenue : Money
  pub sell_price : Money

abbrev pub Key : Type 0
Key = String × Segment

abbrev pub sale_amount : Sale → Money
sale_amount sale = times sale.sell_price (of_int sale.quantity)

abbrev pub tally_sale : Sale → Option Tally → Tally
tally_sale sale none = record {
  units = pos 0 +ℤ sale.quantity;
  revenue = plus zero_money (sale_amount sale);
  sell_price = sale.sell_price;
}
tally_sale sale (some t) = record {
  units = t.units +ℤ sale.quantity;
  revenue = plus t.revenue (sale_amount sale);
  sell_price = t.sell_price;
}

-- The body of the loop over the sales.
unfoldable pub count_sale : Date → Sale → List (Key × Tally) → List (Key × Tally)
count_sale day sale tallies =
    if not (sale.timestamp =? day)
    then tallies
    else let key : Key = (sale.item_id, segment_of_sale sale none) in
      insert key (tally_sale sale (lookup key tallies)) tallies

unfoldable pub count_sales : Date → List Sale → List (Key × Tally) → List (Key × Tally)
count_sales day [] tallies = tallies
count_sales day (sale ∷ sales) tallies = count_sales day sales (count_sale day sale tallies)

abbrev pub key_before : Key → Key → Bool
key_before (i, s) (j, t) = str_before i j || i =? j && (segment_beq s cafe && segment_beq t bar)

abbrev pub flagged_row : Date → Key → String → Tally → Bool → ItemMargin
flagged_row day (item_id, segment) name t unknown_price = record {
  item_id = item_id;
  name = name;
  segment = segment;
  day = day;
  units_sold = t.units;
  sell_price = t.sell_price;
  cost_per_unit = zero_money;
  revenue = t.revenue;
  cogs = zero_money;
  gross_margin = zero_money;
  gross_margin_pct = none;
  unmapped = not unknown_price;
  unknown_price = unknown_price;
  below_target = false;
}

-- A target is missed where there is one and a percentage to hold against it.
abbrev pub is_below : Option Decimal → Option Decimal → Bool
is_below (some target) (some pct) = less pct target
is_below _ _ = false

abbrev pub priced_row : Date → Key → Recipe → Tally → Money → ItemMargin
priced_row day (item_id, segment) recipe t cpu =
    let cogs = times cpu (of_int t.units) in
    let gm = minus t.revenue cogs in
    let pct = gross_margin_pct gm t.revenue in
    record {
      item_id = item_id;
      name = recipe.name;
      segment = segment;
      day = day;
      units_sold = t.units;
      sell_price = t.sell_price;
      cost_per_unit = cpu;
      revenue = t.revenue;
      cogs = cogs;
      gross_margin = gm;
      gross_margin_pct = pct;
      unmapped = false;
      unknown_price = false;
      below_target = is_below recipe.target_gross_margin_pct pct;
    }
