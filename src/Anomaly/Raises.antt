-- ===== src/Anomaly/Raises.antt =====
-- When anomaly.py raises, and a venue with one cashier.
use accounting_tool.Prelude.Int.{ℤ}
use accounting_tool.Decimal.{Decimal}
use accounting_tool.Anomaly.{
  detect_anomalies, drawer_short_rate_flags, AnomalyConfig, Detected, with_more, value_error, flags,
  in_window, void_rate_flags, void_peak_clustering_flags, drawer_run_flags,
}
use accounting_tool.Types.{ShiftClose, AnomalyFlag, Void}
use accounting_tool.Prelude.{
  List, Bool, ◌∷◌, keep, ◌≡◌, true, false, [], String, ◌↔◌, none, any, arith, inl, Bool-cases, refl,
  inr, some, ◌≢◌, ◌++◌, Option-cases, sym, ◌∙◌,
}

with_more_raises :
    (first last : List AnomalyFlag) (middle : Detected)
    → (with_more first middle last ≡ value_error) ↔ (middle ≡ value_error)
with_more_raises first last (flags fs) = (λ h. ground (arith, h), λ h. ground (arith, h))
with_more_raises first last value_error = (λ h. refl, λ h. refl)

abbrev is_full : List ShiftClose → Bool
is_full [] = false
is_full (c ∷ closes) = true

full_keep :
    (p : ShiftClose → Bool) (closes : List ShiftClose) → is_full (keep p closes) ≡ any p closes
full_keep p [] = refl
full_keep p (c ∷ closes) = elim (Bool-cases (p c)) [
  | inl e ↦ rw e refl
  | inr e ↦ rw e (full_keep p closes)
]

some_is_full : (t : Decimal) → some t ≢ none
some_is_full t h = ground (arith, h)

raises_without :
    (config : AnomalyConfig) (closes : List ShiftClose)
    → config.drawer_short_rate_threshold ≡ none
    → (drawer_short_rate_flags config closes ≡ value_error) ↔ (is_full closes ≡ true)
unfolding drawer_short_rate_flags
raises_without config [] e =
    rw (drawer_short_rate_flags, e) (λ h. ground (arith, h), λ h. ground (arith, h))
raises_without config (c ∷ closes) e = rw (drawer_short_rate_flags, e) (λ h. refl, λ h. refl)

raises_with :
    (config : AnomalyConfig) (closes : List ShiftClose) (t : Decimal)
    → config.drawer_short_rate_threshold ≡ some t
    → drawer_short_rate_flags config closes ≢ value_error
unfolding drawer_short_rate_flags
raises_with config closes t e = rw (drawer_short_rate_flags, e) (λ h. ground (arith, h))

-- `detect_anomalies` raises exactly when no threshold for the drawers is configured and a close
-- lies in the window: without closes there the missing threshold does no harm, and with one it
-- does, whatever the voids and the sales are.
pub detect_anomalies-raises :
    (config : AnomalyConfig) (voids : List Void) (closes : List ShiftClose)
    (sales_counts : List (String × ℤ))
    → (detect_anomalies config voids closes sales_counts ≡ value_error) ↔ (
        (config.drawer_short_rate_threshold ≡ none)
        × (any (λ c. in_window config c.closed_at) closes ≡ true))
unfolding detect_anomalies drawer_short_rate_flags
detect_anomalies-raises config voids closes sales_counts =
    let inside = keep (λ c. in_window config c.closed_at) closes in
    let full = full_keep (λ c. in_window config c.closed_at) closes in
    let voids_inside = keep (λ v. in_window config v.created_at) voids in
    let whole_pass =
      with_more_raises
        (void_rate_flags config voids_inside sales_counts
          ++ void_peak_clustering_flags config voids_inside)
        (drawer_run_flags config inside) (drawer_short_rate_flags config inside) in
    elim (Option-cases config.drawer_short_rate_threshold) [
      | inl e ↦
          let here = raises_without config inside e in
          (λ h. (e, sym full ∙ here.0 (whole_pass.0 h)), λ h. whole_pass.1 (here.1 (full ∙ h.1)))
      | inr (t, e) ↦ (
        λ h. absurd (raises_with config inside t e (whole_pass.0 h)),
        λ h. absurd (some_is_full t (sym e ∙ h.0)),
      )
    ]
