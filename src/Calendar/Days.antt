-- ===== src/Calendar/Days.antt =====
-- Days in a row: the day after is one further on, and later days are further on.
use accounting_tool.Calendar.{Date, days_in_month, is_leap, next_day, days_before, ordinal, before}
use accounting_tool.Prelude.{
  ℕ, ◌*◌, if◌then◌else◌, ◌≤◌, ◌-◌, suc, arith, ◌+◌, ◌≡◌, ◌/◌, zero, Bool-cases, refl, ltb, true,
  inl, ◌<◌, inr, ap, ◌⊎◌, ◌∙◌, ap₂, leb, leb→le, sym,
}

-- A date that exists.
abbrev pub IsDate : Date → Type 0
IsDate d =
    (1 ≤ d.year)
    × ((1 ≤ d.month) × ((d.month ≤ 12) × ((1 ≤ d.day) × (d.day ≤ days_in_month d.year d.month))))

-- The days before the first of January.
abbrev year_start : ℕ → ℕ
year_start y = 365 * (y - 1) + ((y - 1) / 4 - (y - 1) / 100) + (y - 1) / 400

abbrev year_length : ℕ → ℕ
year_length y = if is_leap y then 366 else 365

days_before_year : (y : ℕ) → days_before y 12 ≡ year_length y
unfolding days_in_month
days_before_year y = ground arith

year_start_next : (y : ℕ) → 1 ≤ y → year_start (suc y) ≡ year_start y + year_length y
unfolding is_leap
year_start_next y h = ground (arith, h)

days_in_month_pos : (y m : ℕ) → 1 ≤ days_in_month y m
unfolding days_in_month
days_in_month_pos y m = ground arith

pub next_day-IsDate : (d : Date) → IsDate d → IsDate (next_day d)
unfolding next_day
next_day-IsDate d h =
    ground (arith, h, days_in_month_pos d.year d.month, days_in_month_pos d.year (suc d.month))

days_before_step : (y m : ℕ) → 1 ≤ m → days_before y m ≡ days_before y (m - 1) + days_in_month y m
days_before_step y zero h = absurd (omega (arith, h))
days_before_step y (suc n) h =
    let e : n ≡ suc n - 1 = omega arith in
    ap (λ (k : ℕ). days_before y k + days_in_month y (suc n)) e

-- The three ways in which a day has a day after it, as the ordinals see them.
ordinal_within :
    (y m d : ℕ)
    → ordinal (record { year = y; month = m; day = suc d })
      ≡ suc (ordinal (record { year = y; month = m; day = d }))
unfolding ordinal
ordinal_within y m d = omega arith

ordinal_month :
    (y m d : ℕ)
    → 1 ≤ m
    → d ≡ days_in_month y m
    → ordinal (record { year = y; month = suc m; day = 1 })
      ≡ suc (ordinal (record { year = y; month = m; day = d }))
unfolding ordinal
ordinal_month y m d h e =
    let step = days_before_step y m h in
    let at_m : days_before y (suc m - 1) ≡ days_before y m = ap (days_before y) (omega arith) in
    omega (arith, step, at_m, e)

ordinal_year :
    (y d : ℕ)
    → 1 ≤ y
    → d ≡ days_in_month y 12
    → ordinal (record { year = suc y; month = 1; day = 1 })
      ≡ suc (ordinal (record { year = y; month = 12; day = d }))
unfolding ordinal
ordinal_year y d h e =
    let length_y = days_before_year y in
    let start = year_start_next y h in omega (arith, length_y, start, e)

-- The day after is one further on.
pub ordinal-next_day : (d : Date) → IsDate d → ordinal (next_day d) ≡ suc (ordinal d)
unfolding next_day
ordinal-next_day d h = elim (Bool-cases (ltb d.day (days_in_month d.year d.month))) [
  | inl e ↦ rw (next_day, e) (ordinal_within d.year d.month d.day)
  | inr e ↦
      let full : d.day ≡ days_in_month d.year d.month = ground (arith, e, h) in
      elim (Bool-cases (ltb d.month 12)) [
        | inl f ↦ rw (next_day, e, f) (ordinal_month d.year d.month d.day h.1.0 full)
        | inr f ↦
            let last : d.month ≡ 12 = ground (arith, f, h) in
            rw (next_day, e, f)
              (ordinal_year d.year d.day h.0 (full ∙ ap (days_in_month d.year) last)
                ∙ ap (λ (m : ℕ). suc (ordinal (record { year = d.year; month = m; day = d.day })))
                    (sym last))
      ]
]

days_before_mono : (y m n : ℕ) → m ≤ n → days_before y m ≤ days_before y n
days_before_mono y m zero h =
    let e : m ≡ 0 = omega (arith, h) in omega (arith, ap (days_before y) e)
days_before_mono y m (suc n) h = elim (Bool-cases (leb m n)) [
  | inl less ↦ omega (arith, days_before_mono y m n (leb→le m n less))
  | inr last ↦ let e : m ≡ suc n = ground (arith, h, last) in omega (arith, ap (days_before y) e)
]

year_start_mono : (y z : ℕ) → 1 ≤ y → y ≤ z → year_start y ≤ year_start z
year_start_mono y z h k = omega (arith, h, k)

-- What an ordinal is made of: the start of the year, that of the month, and the day.
abbrev month_start : Date → ℕ
month_start d = days_before d.year (d.month - 1)

within_month : (d : Date) → IsDate d → month_start d + d.day ≤ days_before d.year d.month
within_month d h = omega (arith, days_before_step d.year d.month h.1.0, h.1.1.1.1)

within_year : (d : Date) → IsDate d → month_start d + d.day ≤ year_length d.year
within_year d h =
    omega
      (arith, within_month d h, days_before_mono d.year d.month 12 h.1.1.0, days_before_year d.year)

ordinal_parts : (d : Date) → ordinal d ≡ year_start d.year + month_start d + d.day
unfolding ordinal
ordinal_parts d = refl

earlier_year : (a b : Date) → IsDate a → IsDate b → a.year < b.year → ordinal a < ordinal b
earlier_year a b ha hb h = omega (
  arith,
  ordinal_parts a,
  ordinal_parts b,
  within_year a ha,
  year_start_next a.year ha.0,
  year_start_mono (suc a.year) b.year (omega arith) (omega (arith, h)),
  hb.1.1.1.0,
)

earlier_month :
    (a b : Date) → IsDate a → IsDate b → a.year ≡ b.year → a.month < b.month → ordinal a < ordinal b
earlier_month a b ha hb e h =
    let up = days_before_mono a.year a.month (b.month - 1) (omega (arith, h)) in
    let same_year = ap (λ (y : ℕ). days_before y (b.month - 1)) e in
    omega (
      arith,
      ordinal_parts a,
      ordinal_parts b,
      within_month a ha,
      up,
      same_year,
      ap year_start e,
      hb.1.1.1.0,
    )

earlier_day :
    (a b : Date) → a.year ≡ b.year → a.month ≡ b.month → a.day < b.day → ordinal a < ordinal b
earlier_day a b e f h = omega (
  arith,
  ordinal_parts a,
  ordinal_parts b,
  ap year_start e,
  ap₂ (λ (y m : ℕ). days_before y (m - 1)) e f,
  h,
)

before_parts :
    (a b : Date)
    → before a b ≡ true
    → (a.year < b.year)
      ⊎ (((a.year ≡ b.year) × (a.month < b.month))
          ⊎ ((a.year ≡ b.year) × ((a.month ≡ b.month) × (a.day < b.day))))
unfolding before
before_parts a b h = ground (arith, h)

-- A later date is further on.
pub ordinal-before : (a b : Date) → IsDate a → IsDate b → before a b ≡ true → ordinal a < ordinal b
ordinal-before a b ha hb h = elim (before_parts a b h) [
  | inl y ↦ earlier_year a b ha hb y
  | inr (inl m) ↦ earlier_month a b ha hb m.0 m.1
  | inr (inr d) ↦ earlier_day a b d.0 d.1.0 d.1.1
]
