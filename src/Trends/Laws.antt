-- ===== src/Trends/Laws.antt =====
-- The weekdays of trends.py share out the days.
use accounting_tool.Decimal.Laws.{plus_assoc, plus_comm, plus_zero}
use accounting_tool.Decimal.Sums.{total-cons, total-nil}
use accounting_tool.Trends.{
  sum_by, weekday_aggregates, weekday_aggregate, TrendBucket, days_of_buckets,
}
use accounting_tool.Calendar.{weekday_of, Date}
use accounting_tool.Decimal.{Money, total, plus, zero_money}
use accounting_tool.PeriodReview.{PeriodDay}
use accounting_tool.Prelude.{
  ℕ, List, if◌then◌else◌, ◌≡◌, ◌∷◌, any, ◌==◌, keep, [], map, false, Bool-cases, arith, inl, ap,
  inr, refl, true, ◌<◌, ◌∙◌, ap₂, Bool, suc, sym, not, zero,
}

-- The sum over the keys of what is counted under each.
abbrev sum_over : (ℕ → Money) → List ℕ → Money
sum_over s ks = total (map s ks)

-- `w` stands in the list exactly once.
abbrev is_once : ℕ → List ℕ → Bool
is_once w [] = false
is_once w (k ∷ ks) = if w == k then not (any (λ j. w == j) ks) else is_once w ks

abbrev bump : ℕ → Money → (ℕ → Money) → ℕ → Money
bump w x s k = if w == k then plus x (s k) else s k

bump_absent :
    (w : ℕ) (x : Money) (s : ℕ → Money) (ks : List ℕ)
    → any (λ j. w == j) ks ≡ false
    → map (bump w x s) ks ≡ map s ks
bump_absent w x s [] h = refl
bump_absent w x s (k ∷ ks) h =
    let other : (w == k) ≡ false = ground (arith, h) in
    let rest : any (λ j. w == j) ks ≡ false = ground (arith, h) in
    rw other (ap (λ l. s k ∷ l) (bump_absent w x s ks rest))

bump_once :
    (w : ℕ) (x : Money) (s : ℕ → Money) (ks : List ℕ)
    → is_once w ks ≡ true
    → sum_over (bump w x s) ks ≡ plus x (sum_over s ks)
bump_once w x s [] h = absurd (ground (arith, h))
bump_once w x s (k ∷ ks) h = elim (Bool-cases (w == k)) [
  | inl here ↦
      let rest : any (λ j. w == j) ks ≡ false = ground (arith, h, here) in
      let first : bump w x s k ≡ plus x (s k) = rw here refl in
      total-cons (bump w x s k) (map (bump w x s) ks)
      ∙ ap₂ plus first (ap total (bump_absent w x s ks rest))
      ∙ plus_assoc x (s k) (sum_over s ks)
      ∙ ap (plus x) (sym (total-cons (s k) (map s ks)))
  | inr past ↦
      let rest : is_once w ks ≡ true = ground (arith, h, past) in
      let first : bump w x s k ≡ s k = rw past refl in
      total-cons (bump w x s k) (map (bump w x s) ks)
      ∙ ap₂ plus first (bump_once w x s ks rest)
      ∙ sym (plus_assoc (s k) x (sum_over s ks))
      ∙ ap (λ t. plus t (sum_over s ks)) (plus_comm (s k) x)
      ∙ plus_assoc x (s k) (sum_over s ks)
      ∙ ap (plus x) (sym (total-cons (s k) (map s ks)))
]

abbrev seven : List ℕ
seven = 0 ∷ 1 ∷ 2 ∷ 3 ∷ 4 ∷ 5 ∷ 6 ∷ []

once_below : (w : ℕ) → w < 7 → is_once w seven ≡ true
once_below zero h = refl
once_below (suc zero) h = refl
once_below (suc (suc zero)) h = refl
once_below (suc (suc (suc zero))) h = refl
once_below (suc (suc (suc (suc zero)))) h = refl
once_below (suc (suc (suc (suc (suc zero))))) h = refl
once_below (suc (suc (suc (suc (suc (suc zero)))))) h = refl
once_below (suc (suc (suc (suc (suc (suc (suc n))))))) h = absurd (omega (arith, h))

weekday_below : (d : Date) → weekday_of d < 7
unfolding weekday_of
weekday_below d = omega arith

matching_sum :
    (amount : PeriodDay → Money) (d : PeriodDay) (days : List PeriodDay) (k : ℕ)
    → sum_by amount (keep (λ e. weekday_of e.day == k) (d ∷ days))
      ≡ bump
          (weekday_of d.day)
          (amount d)
          (λ j. sum_by amount (keep (λ e. weekday_of e.day == j) days))
          k
matching_sum amount d days k = elim (Bool-cases (weekday_of d.day == k)) [
  | inl here ↦ rw here (total-cons (amount d) (map amount (keep (λ e. weekday_of e.day == k) days)))
  | inr past ↦ rw past refl
]

abbrev shares : (PeriodDay → Money) → List PeriodDay → ℕ → Money
shares amount days k = sum_by amount (keep (λ e. weekday_of e.day == k) days)

map_ext : (f g : ℕ → Money) (ks : List ℕ) → ((k : ℕ) → f k ≡ g k) → map f ks ≡ map g ks
map_ext f g [] h = refl
map_ext f g (k ∷ ks) h = ap₂ (λ x l. x ∷ l) (h k) (map_ext f g ks h)

zeros : (ks : List ℕ) → sum_over (λ k. total []) ks ≡ zero_money
zeros [] = total-nil
zeros (k ∷ ks) =
    total-cons (total []) (map (λ k. total []) ks)
    ∙ ap₂ plus total-nil (zeros ks)
    ∙ plus_zero zero_money

shares_total :
    (amount : PeriodDay → Money) (days : List PeriodDay)
    → sum_over (shares amount days) seven ≡ sum_by amount days
shares_total amount [] = zeros seven ∙ sym total-nil
shares_total amount (d ∷ days) =
    let w = weekday_of d.day in
    ap total (
      map_ext (shares amount (d ∷ days)) (bump w (amount d) (shares amount days)) seven
        (matching_sum amount d days))
    ∙ bump_once w (amount d) (shares amount days) seven (once_below w (weekday_below d.day))
    ∙ ap (plus (amount d)) (shares_total amount days)
    ∙ sym (total-cons (amount d) (map amount days))

-- The seven weekdays share out the days of the trend up to its anchor: their revenues come to the
-- revenue of those days, and their COGS to the COGS.
pub weekday_aggregates-total :
    (buckets : List TrendBucket) (anchor : Date)
    → let rows = weekday_aggregates buckets anchor in
      let days = days_of_buckets anchor buckets in
      (total (map (λ a. a.revenue) rows) ≡ sum_by (λ d. d.revenue) days)
      × (total (map (λ a. a.cogs) rows) ≡ sum_by (λ d. d.cogs) days)
unfolding weekday_aggregates weekday_aggregate
weekday_aggregates-total buckets anchor =
    let days = days_of_buckets anchor buckets in
    (shares_total (λ d. d.revenue) days, shares_total (λ d. d.cogs) days)
