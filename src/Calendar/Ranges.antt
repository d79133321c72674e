-- ===== src/Calendar/Ranges.antt =====
-- The days of a range, and that the fuel of the loop is enough.
use mathlib.Core.Bool.{false≢true}
use accounting_tool.Calendar.Days.{IsDate, ordinal-before, next_day-IsDate, ordinal-next_day}
use accounting_tool.Calendar.{
  Date, ordinal, not_after, before, days_from, next_day, not_before_antisymm, date_eq, range_days,
  days_in_range,
}
use accounting_tool.Prelude.{
  ℕ, Bool, ◌=?◌, ◌<◌, ◌&&◌, ◌≡◌, ◌==◌, ltb, true, ◌+◌, any, Bool-cases, ◌↔◌, arith, length, inl,
  suc, ◌∙◌, ◌-◌, inr, ap, sym, beq_sound, eq_sound, zero, nat_eq, leb, false, if◌then◌else◌,
}

before_iff : (a b : Date) → IsDate a → IsDate b → (before a b ≡ true) ↔ (ordinal a < ordinal b)
before_iff a b ha hb = (
  λ h. ordinal-before a b ha hb h,
  λ h. elim (Bool-cases (before a b)) [
    | inl e ↦ e
    | inr e ↦ elim (Bool-cases (before b a)) [
      | inl f ↦ absurd (omega (arith, h, ordinal-before b a hb ha f))
      | inr f ↦ absurd (omega (arith, h, ap ordinal (not_before_antisymm a b e f)))
    ]
  ],
)

-- Dates are compared as their ordinals are.
before-ordinal : (a b : Date) → IsDate a → IsDate b → before a b ≡ ltb (ordinal a) (ordinal b)
before-ordinal a b ha hb = ground (arith, before_iff a b ha hb)

same_ordinal : (a b : Date) → IsDate a → IsDate b → (a =? b) ≡ (ordinal a == ordinal b)
same_ordinal a b ha hb = elim (Bool-cases (a =? b)) [
  | inl e ↦ e ∙ sym (beq_sound (ordinal a) (ordinal b) (ap ordinal (eq_sound a b e)))
  | inr e ↦ elim (Bool-cases (ordinal a == ordinal b)) [
    | inr f ↦ e ∙ sym f
    | inl f ↦
        let q : ordinal a ≡ ordinal b = ground (arith, f) in
        let not_after_b : before a b ≡ false = before-ordinal a b ha hb ∙ ground (arith, q) in
        let not_after_a : before b a ≡ false = before-ordinal b a hb ha ∙ ground (arith, q) in
        let bad = sym e ∙ beq_sound a b (not_before_antisymm a b not_after_b not_after_a) in
        absurd (false≢true bad)
  ]
]

abbrev is_between : Date → Date → Date → Bool
is_between start d stop = not_after start d && not_after d stop

one_more :
    (d c s n : ℕ)
    → n ≡ suc c
    → ltb s c ≡ false
    → (if d == c then true else leb n d && leb d s) ≡ (leb c d && leb d s)
one_more d c s n e h = ground (arith, e, h)

-- The days before the first or after the last are outside, by their ordinals.
is_between-ordinals :
    (a d s : Date)
    → IsDate a
    → IsDate d
    → IsDate s
    → is_between a d s ≡ (leb (ordinal a) (ordinal d) && leb (ordinal d) (ordinal s))
is_between-ordinals a d s ha hd hs =
    rw (before-ordinal d a hd ha, before-ordinal s d hs hd) (ground arith)

outside :
    (a d s : Date)
    → IsDate a
    → IsDate d
    → IsDate s
    → ordinal s < ordinal a
    → false ≡ is_between a d s
outside a d s ha hd hs h = ground (arith, h) ∙ sym (is_between-ordinals a d s ha hd hs)

days_from-any :
    (fuel : ℕ) (current stop d : Date)
    → IsDate current
    → IsDate stop
    → IsDate d
    → ordinal stop < fuel + ordinal current
    → any (λ x. d =? x) (days_from fuel current stop) ≡ is_between current d stop
days_from-any zero current stop d hc hs hd h = outside current d stop hc hd hs (omega (arith, h))
days_from-any (suc fuel) current stop d hc hs hd h = elim (Bool-cases (before stop current)) [
  | inl over ↦ rw over (outside current d stop hc hd hs (ordinal-before stop current hs hc over))
  | inr on ↦
      let hn = next_day-IsDate current hc in
      let rest =
        days_from-any fuel (next_day current) stop d hn hs hd
          (omega (arith, h, ordinal-next_day current hc))
        ∙ is_between-ordinals (next_day current) d stop hn hd hs in
      let reached = sym (before-ordinal stop current hs hc) ∙ on in
      rw (on, rest, same_ordinal d current hd hc)
        (one_more (ordinal d) (ordinal current) (ordinal stop) (ordinal (next_day current))
            (ordinal-next_day current hc) reached
          ∙ sym (is_between-ordinals current d stop hc hd hs))
]

days_from-length :
    (fuel : ℕ) (current stop : Date)
    → IsDate current
    → IsDate stop
    → ordinal stop < fuel + ordinal current
    → length (days_from fuel current stop) ≡ ordinal stop + 1 - ordinal current
days_from-length zero current stop hc hs h = omega (arith, h)
days_from-length (suc fuel) current stop hc hs h = elim (Bool-cases (before stop current)) [
  | inl over ↦ rw over (omega (arith, ordinal-before stop current hs hc over))
  | inr on ↦
      let rest =
        days_from-length fuel (next_day current) stop (next_day-IsDate current hc) hs
          (omega (arith, h, ordinal-next_day current hc)) in
      let reached = sym (before-ordinal stop current hs hc) ∙ on in
      rw on (ground (arith, rest, ordinal-next_day current hc, reached))
]

-- The loop that adds a day at a time from `start` to `stop` has fuel enough: it goes through each
-- date that exists from the first to the last, through no other, and through as many as the
-- difference of the dates says.
pub range_days_complete :
    (start stop d : Date)
    → IsDate start
    → IsDate stop
    → IsDate d
    → (any (λ x. d =? x) (range_days start stop) ≡ (not_after start d && not_after d stop))
      × (length (range_days start stop) ≡ days_in_range start stop)
unfolding range_days days_in_range
range_days_complete start stop d ha hs hd =
    let fuel = ordinal stop + 1 - ordinal start in
    let enough : ordinal stop < fuel + ordinal start = omega arith in
    (days_from-any fuel start stop d ha hs hd enough, days_from-length fuel start stop ha hs enough)
