-- ===== src/Lib.antt =====
-- Verification of the accounting engine of a cafe and bar: the pure calculations of src/tangerine.
--
-- The program reads sales from a till and supplier receipts from photographs, and shows the partners
-- what the business earned. Its parts and how they interact:
--   - an extracted receipt goes through the checks of receipts.py, then to a partner, whose decision
--     approvals.py applies; an approval yields a purchase and enters the book of last known prices;
--   - cost.py turns that book into one current price for each SKU;
--   - recipes.py maps a sold item to a recipe, segments.py a sale to the cafe or the bar;
--   - margin.py resolves the cost of a SKU through its recipes and draws up the margins of a day;
--   - cafe_stock.py and keg_inventory.py find what was consumed between two counts or weigh-ins and
--     price it with the cost book;
--   - monthly_pnl.py puts revenue, this COGS and the fixed costs together for a month;
--     fixed_costs.py and cash_spend.py charge a range of dates, and cash_spend_csv.py reads an
--     uploaded file of cash purchases;
--   - price_history.py reads a log of price edits, so that each day is costed with the prices of
--     that day, and coverage.py shows which SKUs and items have a cost;
--   - daily_review.py puts the margins of a day beside the anomalies that anomaly.py finds and the
--     goal of seven days; period_review.py adds up the days of a range, trends.py the weeks or months
--     before a day, and profit_report.py sets the period beside the cash that was spent;
--   - loyverse/store.py keeps the sales that a sync brings in once each, and the history of the menu;
--   - checklists.py carries the tasks of the day, cash_drawer.py closes shifts and checks handoffs;
--   - web/auth.py lets a request through by the session in its cookie, and web/ratelimit.py slows
--     down logins.
--
-- Files, and the code that each models (paths are from the root of the repository):
--   Prelude, Prelude/*   no code: shared names, lists, dicts, stable sort, integers, equality tests
--   Decimal, Decimal/*   Python's decimal.Decimal, which src/tangerine uses for every amount
--   Calendar, Calendar/* datetime.date and datetime, days, ranges of days and months
--   Types, Types/*       src/tangerine/types.py
--   Receipts             src/tangerine/receipts.py
--   Approvals            src/tangerine/approvals.py
--   Cost                 src/tangerine/cost.py
--   PriceHistory         src/tangerine/price_history.py
--   Segments             src/tangerine/segments.py
--   Recipes              src/tangerine/recipes.py
--   Margin, Margin/*     src/tangerine/margin.py, and Source of src/tangerine/ingestion.py
--   Coverage             src/tangerine/coverage.py
--   CafeStock            src/tangerine/cafe_stock.py
--   KegInventory         src/tangerine/keg_inventory.py
--   MonthlyPnl           src/tangerine/monthly_pnl.py
--   FixedCosts           src/tangerine/fixed_costs.py
--   CashSpend            src/tangerine/cash_spend.py
--   CashSpendCsv         src/tangerine/cash_spend_csv.py
--   Anomaly              src/tangerine/anomaly.py
--   DailyReview          src/tangerine/daily_review.py
--   PeriodReview         src/tangerine/period_review.py
--   Trends               src/tangerine/trends.py
--   ProfitReport         src/tangerine/profit_report.py
--   Loyverse/Store       src/tangerine/loyverse/store.py
--   Checklists           src/tangerine/checklists.py
--   CashDrawer           src/tangerine/cash_drawer.py
--   Auth                 src/tangerine/web/auth.py
--   RateLimit            src/tangerine/web/ratelimit.py, the class RateLimiter
-- Below each of these, X/Tests holds concrete runs, and the other files hold theorems, in X/Laws
-- or in files named for what they prove; Margin/Resolver, Margin/Day, Margin/Range and
-- Margin/Breakdown are parts of the model.
--
-- State and operations. Functions have the names of the source, with a leading underscore dropped.
-- A dict is an association list in insertion order, and a mutable object is passed in and
-- returned: `apply_decision` returns the ApprovalBook after the call, `allow` the Limiter. An
-- exception is a constructor of the result (`decision_error`, `value_error`) or `none`. The body
-- of a loop is a function of its own, named at its definition. Where the source goes through a
-- set, the order is an argument, so that the theorems hold for every order.
--
-- Numbers. A Decimal is an integer coefficient and a number of places. Sums, differences and
-- products are exact: the rounding of the default context past 28 significant digits is modelled
-- for division only, half to even. The sign of zero and the trailing zeros of an exact quotient
-- are not modelled, and no NaN or infinity is; `Same` is equality of value, ≡ is equality of value
-- and places. Counts and clock readings are natural numbers. Dates are those of the proleptic
-- Gregorian calendar, and a time of day is local, in microseconds of its minute. Of the
-- OverflowError of a date before the year 1 or after the year 9999 only the one of daily_review.py
-- is modelled, where its window of seven days would start before the calendar; elsewhere the days
-- that a calculation steps to are taken to be in the calendar. The check of a Decimal constructor's
-- string is not modelled.
--
-- Recursion is structural, except that six functions are on fuel. `months_from` of FixedCosts has
-- the number of months that the range spans, and `days_from` of Calendar the number of its days.
-- `walk` of Recipes has one more than twice the number of recipes: a visit off the path uses up a
-- recipe, and a node that is made of itself is entered a second time; a visit that is cut off is a
-- result of its own. `resolve_or` of Margin/Resolver and `leaves_or` of Margin/Breakdown have one more
-- than the number of recipes, as no recipe is open twice; what they say where the fuel is used up is
-- an argument, on which a result with fuel enough does not depend. `resolve` and `unpriced_leaves`
-- are these with nothing there. The digits of a number n are counted on fuel n. Python's own limit
-- on the depth of recursion is not modelled.
--
-- Code outside the repository is a parameter. In Auth these are the serializer of itsdangerous,
-- `int()` on what the cookie holds, and the rest of the application that a request goes on to; in
-- Coverage it is `str.lower`, and in CashSpendCsv `csv.reader`, `str.strip`, `str.lower`,
-- `date.fromisoformat` and the reading of a Decimal from its text, of which the theorems assume
-- nothing. The sentences of an anomaly and of a row's error are kept as their parts, the label of a
-- trend as the date that it prints, and a changed price of the menu as the number in its text.
--
-- In margin.py the three dicts of a day, which get their keys together, are one dict of Tally, and
-- the cost of a SKU below the one asked for, where the memo is neither read nor written, is
-- `resolve`.
--
-- Not modelled: generate_template_csv of cash_spend_csv.py, and quantity.py, serving_recipe.py,
-- sku_authoring.py and upload.py, which read and write text, cost_mirror.py, which lays out a
-- sheet, and the parser and the sync of loyverse; and the web application, the storage in SQLite,
-- the client of the till's API, the loader of the configuration and the scripts, which are input
-- and output around the calculations.
pub mod Prelude
pub mod Decimal
pub mod Calendar
pub mod Types
pub mod Receipts
pub mod Approvals
pub mod Cost
pub mod Segments
pub mod CashDrawer
pub mod RateLimit
pub mod Recipes
pub mod CafeStock
pub mod KegInventory
pub mod MonthlyPnl
pub mod FixedCosts
pub mod CashSpend
pub mod CashSpendCsv
pub mod Margin
pub mod Loyverse
pub mod PriceHistory
pub mod Checklists
pub mod Auth
pub mod Anomaly
pub mod PeriodReview
pub mod ProfitReport
pub mod Trends
pub mod Coverage
pub mod DailyReview
