-- ===== src/Anomaly/Tests.antt =====
-- The theorems about anomaly.py for two partners who take turns.
use accounting_tool.Prelude.Sort.{sort}
use accounting_tool.Anomaly.Runs.{longest_run, shorts, drawer_run_flags-longest_run}
use accounting_tool.Types.{ShiftClose}
use accounting_tool.Decimal.{arithmetic, whole, half_even, minus, num_digits, zero_money}
use accounting_tool.Calendar.{DateTime, moment_before, before}
use accounting_tool.Anomaly.{
  median, drawer_run_flags, AnomalyConfig, walk_closes, default_peak_hours,
  default_peak_share_threshold, closed_before,
}
use accounting_tool.Prelude.{
  ℕ, any, List, String, ◌=?◌, none, [], ◌≡◌, ◌∷◌, leb, ◌+◌, refl, map, string_eq,
}

abbrev moment : ℕ → ℕ → DateTime
moment d h = record {
  date = record { year = 2026; month = 5; day = d };
  hour = h;
  minute = 0;
  micros = 0;
}

-- `variance` is `plus - minus`.
abbrev closed : String → ℕ → ℕ → ℕ → ShiftClose
closed cashier_id d surplus shortage = record {
  shift_id = "s";
  cashier_id = cashier_id;
  closed_at = moment d 22;
  opening_cash = whole 100;
  closing_cash = minus (whole (100 + surplus)) (whole shortage);
  rung_up_cash = zero_money;
  variance = minus (whole surplus) (whole shortage);
}

abbrev config : AnomalyConfig
config = record {
  start = record { year = 2026; month = 5; day = 1 };
  stop = record { year = 2026; month = 5; day = 7 };
  drawer_short_rate_threshold = none;
  peak_hours = default_peak_hours;
  peak_share_threshold = default_peak_share_threshold;
}

-- Noi is short on three shifts with Daniel's in between, and the list is not in order.
abbrev closes : List ShiftClose
closes =
    closed "noi" 3 0 5
    ∷ closed "daniel" 2 0 0
    ∷ closed "noi" 1 0 5
    ∷ closed "daniel" 4 0 5
    ∷ closed "noi" 5 0 1
    ∷ []

noi_only : map (λ f. f.cashier_id) (drawer_run_flags config closes) ≡ "noi" ∷ []
unfolding drawer_run_flags walk_closes moment_before before arithmetic
noi_only = refl

medians : median (whole 3 ∷ whole 1 ∷ whole 2 ∷ []) ≡ whole 2
unfolding median arithmetic half_even num_digits
medians = refl

drawer_run_flags-longest_run_example :
    any (λ f. "noi" =? f.cashier_id) (drawer_run_flags config closes)
    ≡ leb 3 (longest_run (shorts "noi" (sort closed_before closes)))
drawer_run_flags-longest_run_example = drawer_run_flags-longest_run config closes "noi"
