-- ===== src/PriceHistory/Latest.antt =====
-- Which change of price_history.py governs a date, read off the log as it was recorded.
use accounting_tool.Cost.{CostBook}
use accounting_tool.Prelude.Dict.{get_or, get_or-insert}
use accounting_tool.Prelude.Sort.{AtLeast, IsSorted, place, sort, AtLeast-trans, sort-IsSorted}
use accounting_tool.Calendar.{Date, before, not_after, not_after_trans, before_asymm}
use accounting_tool.PriceHistory.{
  PriceChange, last_change, changed_before, governing_change, add_changes, new_history, add_change,
}
use accounting_tool.Prelude.{
  Option, String, some, none, List, Bool, if◌then◌else◌, ◌∷◌, ◌=?◌, ◌&&◌, keep, [], ◌≡◌, string_eq,
  false, arith, refl, Option-cases, Bool-cases, true, inl, inr, ◌∙◌, ap, ◌++◌, sym, append-nil,
  eq_sound, append_assoc,
}

-- A change for the SKU that the date has reached.
abbrev pub counts : String → Date → PriceChange → Bool
counts sku_id on_date c = (sku_id =? c.sku_id) && not_after c.changed_on on_date

-- The later of the two by date: `c` was recorded first, and gives way to one of its own date.
abbrev pub later_of : PriceChange → Option PriceChange → Option PriceChange
later_of c none = some c
later_of c (some d) = if before d.changed_on c.changed_on then some c else some d

-- Of the changes that count, the one with the latest date, the last recorded of that date.
abbrev pub latest : String → Date → List PriceChange → Option PriceChange
latest sku_id on_date [] = none
latest sku_id on_date (c ∷ log) =
    let rest = latest sku_id on_date log in
    if counts sku_id on_date c then later_of c rest else rest

abbrev over : String → Date → PriceChange → Option PriceChange → Option PriceChange
over sku_id on_date c none = if counts sku_id on_date c then some c else none
over sku_id on_date c (some d) = some d

-- The last in the list that counts.
abbrev last_of : String → Date → List PriceChange → Option PriceChange
last_of sku_id on_date [] = none
last_of sku_id on_date (c ∷ log) = over sku_id on_date c (last_of sku_id on_date log)

abbrev or_else : Option PriceChange → Option PriceChange → Option PriceChange
or_else none best = best
or_else (some d) best = some d

or_else-none : (o : Option PriceChange) → or_else o none ≡ o
or_else-none none = refl
or_else-none (some c) = refl

step_counted :
    (sku_id : String) (on_date : Date) (c : PriceChange) (log : List PriceChange)
    (best : Option PriceChange)
    → (sku_id =? c.sku_id) ≡ true
    → or_else (last_of sku_id on_date log) (if not_after c.changed_on on_date then some c else best)
      ≡ or_else (last_of sku_id on_date (c ∷ log)) best
step_counted sku_id on_date c log best mine = ground (arith, mine)

step_skipped :
    (sku_id : String) (on_date : Date) (c : PriceChange) (log : List PriceChange)
    (best : Option PriceChange)
    → (sku_id =? c.sku_id) ≡ false
    → or_else (last_of sku_id on_date log) best ≡ or_else (last_of sku_id on_date (c ∷ log)) best
step_skipped sku_id on_date c log best other = ground (arith, other)

last_change_lem :
    (sku_id : String) (on_date : Date) (log : List PriceChange) (best : Option PriceChange)
    → last_change on_date (keep (λ c. sku_id =? c.sku_id) log) best
      ≡ or_else (last_of sku_id on_date log) best
last_change_lem sku_id on_date [] best = refl
last_change_lem sku_id on_date (c ∷ log) best = elim (Bool-cases (sku_id =? c.sku_id)) [
  | inl mine ↦
      let next = if not_after c.changed_on on_date then some c else best in
      rw mine
        (last_change_lem sku_id on_date log next ∙ step_counted sku_id on_date c log best mine)
  | inr other ↦
      rw other
        (last_change_lem sku_id on_date log best ∙ step_skipped sku_id on_date c log best other)
]

changed_asymm : (a b : PriceChange) → changed_before a b ≡ true → changed_before b a ≡ false
changed_asymm a b h = before_asymm a.changed_on b.changed_on h

changed_trans :
    (a b c : PriceChange)
    → changed_before b a ≡ false
    → changed_before c b ≡ false
    → changed_before c a ≡ false
changed_trans a b c h k = not_after_trans a.changed_on b.changed_on c.changed_on h k

-- A change that goes before the head of a sorted list goes before the whole of it.
head_first :
    (x y : PriceChange) (log : List PriceChange)
    → changed_before y x ≡ false
    → AtLeast changed_before y log
    → AtLeast changed_before x (y ∷ log)
head_first x y log h k = (h, AtLeast-trans changed_before changed_asymm changed_trans x y log h k)

last_of-AtLeast :
    (sku_id : String) (on_date : Date) (x : PriceChange) (log : List PriceChange) (d : PriceChange)
    → AtLeast changed_before x log
    → last_of sku_id on_date log ≡ some d
    → changed_before d x ≡ false
last_of-AtLeast sku_id on_date x [] d h e = ground (arith, e)
last_of-AtLeast sku_id on_date x (c ∷ log) d h e =
    elim (Option-cases (last_of sku_id on_date log)) [
      | inl q ↦ ground (arith, h.0, e, q)
      | inr (b, q) ↦
          let same_one : b ≡ d = ground (arith, e, q) in
          last_of-AtLeast sku_id on_date x log d h.1 (q ∙ ap some same_one)
    ]

-- The two ways in which a change is put before a list, on what the list has chosen.
place_after :
    (sku_id : String) (on_date : Date) (x y : PriceChange) (rest : Option PriceChange)
    → changed_before y x ≡ true
    → over sku_id on_date y (if counts sku_id on_date x then later_of x rest else rest) ≡ (
        if counts sku_id on_date x
        then later_of x (over sku_id on_date y rest)
        else over sku_id on_date y rest)
place_after sku_id on_date x y none h = ground (arith, h)
place_after sku_id on_date x y (some d) h = ground (arith, h)

place_first :
    (sku_id : String) (on_date : Date) (x : PriceChange) (rest : Option PriceChange)
    → ((d : PriceChange) → rest ≡ some d → changed_before d x ≡ false)
    → over sku_id on_date x rest ≡ (if counts sku_id on_date x then later_of x rest else rest)
place_first sku_id on_date x none h = ground arith
place_first sku_id on_date x (some d) h = ground (arith, h d refl)

-- Placing a change in a list that is sorted by date chooses between it and the last.
last_of-place :
    (sku_id : String) (on_date : Date) (x : PriceChange) (log : List PriceChange)
    → IsSorted changed_before log
    → last_of sku_id on_date (place changed_before x log) ≡ (
        if counts sku_id on_date x
        then later_of x (last_of sku_id on_date log)
        else last_of sku_id on_date log)
last_of-place sku_id on_date x [] h = refl
last_of-place sku_id on_date x (y ∷ log) h = elim (Bool-cases (changed_before y x)) [
  | inl e ↦ rw e (
      ap (over sku_id on_date y) (last_of-place sku_id on_date x log h.1)
      ∙ place_after sku_id on_date x y (last_of sku_id on_date log) e)
  | inr e ↦ rw e (
      place_first sku_id on_date x (last_of sku_id on_date (y ∷ log))
        (λ d q. last_of-AtLeast sku_id on_date x (y ∷ log) d (head_first x y log e h.0) q))
]

last_of-sort :
    (sku_id : String) (on_date : Date) (log : List PriceChange)
    → last_of sku_id on_date (sort changed_before log) ≡ latest sku_id on_date log
last_of-sort sku_id on_date [] = refl
last_of-sort sku_id on_date (c ∷ log) =
    last_of-place sku_id on_date c (sort changed_before log)
      (sort-IsSorted changed_before changed_asymm changed_trans log)
    ∙ ap (λ rest. if counts sku_id on_date c then later_of c rest else rest)
        (last_of-sort sku_id on_date log)

added_mine :
    (sku_id : String) (c : PriceChange) (d : List (String × List PriceChange))
    → (sku_id =? c.sku_id) ≡ true
    → get_or sku_id [] (add_change c d) ≡ get_or sku_id [] d ++ (c ∷ [])
added_mine sku_id c d mine =
    let e = eq_sound sku_id c.sku_id mine in
    get_or-insert c.sku_id sku_id (get_or c.sku_id [] d ++ (c ∷ [])) [] d
    ∙ rw mine (ap (λ (k : String). get_or k [] d ++ (c ∷ [])) (sym e))

added_other :
    (sku_id : String) (c : PriceChange) (d : List (String × List PriceChange))
    → (sku_id =? c.sku_id) ≡ false
    → get_or sku_id [] (add_change c d) ≡ get_or sku_id [] d
added_other sku_id c d other =
    get_or-insert c.sku_id sku_id (get_or c.sku_id [] d ++ (c ∷ [])) [] d ∙ rw other refl

-- The dict of the constructor holds under each SKU its changes, in the order they were added.
pub add_changes_lem :
    (sku_id : String) (log : List PriceChange) (d : List (String × List PriceChange))
    → get_or sku_id [] (add_changes log d)
      ≡ get_or sku_id [] d ++ keep (λ c. sku_id =? c.sku_id) log
add_changes_lem sku_id [] d = sym (append-nil (get_or sku_id [] d))
add_changes_lem sku_id (c ∷ log) d =
    add_changes_lem sku_id log (add_change c d) ∙ elim (Bool-cases (sku_id =? c.sku_id)) [
      | inl mine ↦ rw mine (
          ap (λ l. l ++ keep (λ c. sku_id =? c.sku_id) log) (added_mine sku_id c d mine)
          ∙ append_assoc (get_or sku_id [] d) (c ∷ []) (keep (λ c. sku_id =? c.sku_id) log))
      | inr other ↦ rw (other, added_other sku_id c d other) refl
    ]

-- The change that governs a date is the latest by date among the SKU's changes that the date has
-- reached, and of those of one date the last recorded.
pub governing_change_lem :
    (current : CostBook) (log : List PriceChange) (sku_id : String) (on_date : Date)
    → governing_change (new_history current log) sku_id on_date ≡ latest sku_id on_date log
unfolding governing_change new_history
governing_change_lem current log sku_id on_date =
    ap (λ mine. last_change on_date mine none) (add_changes_lem sku_id (sort changed_before log) [])
    ∙ last_change_lem sku_id on_date (sort changed_before log) none
    ∙ ap (λ o. or_else o none) (last_of-sort sku_id on_date log)
    ∙ or_else-none (latest sku_id on_date log)
