-- ===== src/Types/Anomalies.antt =====
-- types.py: voided lines and the flags of the anomaly rules.
use accounting_tool.Prelude.Int.{ℤ}
use accounting_tool.Calendar.{DateTime, Date}
use accounting_tool.Decimal.{Decimal, Money}
use accounting_tool.Prelude.{ℕ, String}

pub data AnomalyKind : Type 0 where
  void_rate_above_venue_median void_clustering_at_peak : AnomalyKind
  drawer_short_rate_above_threshold drawer_short_three_shifts_running : AnomalyKind

pub record Void : Type 0 where
  pub void_id : String
  pub cashier_id : String
  pub created_at : DateTime
  pub item_id : String
  pub quantity : ℤ
  pub price : Money

-- The sentence of a flag, as what is put into it.
pub data FlagDetail : Type 0 where
  rate_detail : Decimal → Decimal → FlagDetail
  peak_detail : ℕ → ℕ → Decimal → ℕ → ℕ → FlagDetail
  short_detail : ℕ → ℕ → Decimal → Decimal → FlagDetail
  run_detail : ℕ → FlagDetail

pub record AnomalyFlag : Type 0 where
  pub kind : AnomalyKind
  pub cashier_id : String
  pub period_start : Date
  pub period_end : Date
  pub observed : Decimal
  pub reference : Decimal
  pub detail : FlagDetail
