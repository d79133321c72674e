-- ===== src/FixedCosts/Whole.antt =====
-- Ranges of whole months in fixed_costs.py: no charge is an estimate, and ranges that meet add up.
use accounting_tool.FixedCosts.Covered.{
  in_full, add_months-apportioned, month_of-last_day, charges-whole,
}
use accounting_tool.Decimal.Laws.{plus_zero, plus_interchange}
use accounting_tool.Decimal.Sums.{total-nil, total-cons, total-append}
use accounting_tool.FixedCosts.Laws.{fixed_costs_for_period-total, charges}
use accounting_tool.Decimal.{Money, total, plus, zero_money}
use accounting_tool.FixedCosts.Months.{
  IsMonth, Spans, next_month-IsMonth, months_from-split, months_from-Spans,
}
use accounting_tool.FixedCosts.{
  fixed_costs_for_period, months_overlapping, add_months, FixedCostEntry, line_for_entry,
  months_from, FixedCostLine, month_count, month_index, applies_in_month, nothing_yet, next_month,
}
use accounting_tool.Calendar.{YearMonth, last_day, first_day}
use accounting_tool.Prelude.{
  none, Option, Bool, List, ◌++◌, keep, ◌≡◌, In, ap, map, false, ◌∷◌, refl, some, All, ◌≤◌, any,
  inl, arith, inr, ◌∙◌, collect, [], ap₂, suc, sym, map-append, fun_ext,
}

All-of_In : {A : Type 0} (P : A → Type 0) (xs : List A) → ((x : A) → In x xs → P x) → All P xs
All-of_In P [] h = tt
All-of_In P (x ∷ xs) h = (h x (inl refl), All-of_In P xs (λ y i. h y (inr i)))

-- The months of a range of whole months.
abbrev pub whole_months : YearMonth → YearMonth → List YearMonth
whole_months a b = months_from (month_count a b) a b

months_overlapping-whole :
    (a b : YearMonth) → months_overlapping (first_day a) (last_day b) ≡ whole_months a b
unfolding months_overlapping last_day
months_overlapping-whole a b = rw (month_of-last_day b)

whole_months-Spans : (a b : YearMonth) → IsMonth a → IsMonth b → All (Spans a b) (whole_months a b)
whole_months-Spans a b p q =
    All-of_In (Spans a b) (whole_months a b)
      (λ m i. (months_from-Spans (month_count a b) a b p q (omega arith) m).0 i)

line-IsExact :
    (a b : YearMonth)
    → IsMonth a
    → IsMonth b
    → (entry : FixedCostEntry) (line : FixedCostLine)
    → line_for_entry (first_day a) (last_day b) entry ≡ some line
    → line.apportioned ≡ false
unfolding line_for_entry
line-IsExact a b p q entry line e =
    let acc =
      add_months entry (first_day a) (last_day b) nothing_yet
        (months_overlapping (first_day a) (last_day b)) in
    let exact : acc.apportioned ≡ false =
      add_months-apportioned a b p q entry nothing_yet
        (months_overlapping (first_day a) (last_day b))
        (rw (months_overlapping-whole a b) (whole_months-Spans a b p q)) refl in
    ground arith

none_found :
    {A : Type 0} {B : Type 0} (f : A → Option B) (p : B → Bool)
    → ((x : A) (y : B) → f x ≡ some y → p y ≡ false)
    → (xs : List A) → any p (collect f xs) ≡ false
none_found f p h [] = refl
none_found f p h (x ∷ xs) = none_collected (f x) (collect f xs) (h x) (none_found f p h xs)
  where
    none_collected :
        (o : Option _) (rest : List _)
        → ((y : _) → o ≡ some y → p y ≡ false)
        → any p rest ≡ false
        → any p (elim o [ none ↦ rest | some y ↦ y ∷ rest ]) ≡ false
    none_collected none rest g e = e
    none_collected (some y) rest g e = rw (g y refl) e

pub total-whole :
    (a b : YearMonth)
    → IsMonth a
    → IsMonth b
    → (entries : List FixedCostEntry)
    → (fixed_costs_for_period (first_day a) (last_day b) entries).total_amount
      ≡ total (map (λ e. total (in_full e (whole_months a b))) entries)
total-whole a b p q entries =
    fixed_costs_for_period-total (first_day a) (last_day b) entries
    ∙ ap (λ f. total (map f entries))
        (fun_ext (λ e. ap total (
          ap (charges (first_day a) (last_day b) e) (months_overlapping-whole a b)
          ∙ charges-whole a b p q e (whole_months a b) (whole_months-Spans a b p q))))

-- Over whole months nothing is an estimate, and the total is each entry's full amount for each of
-- the months that it applies in.
pub fixed_costs_for_period-whole :
    (a b : YearMonth)
    → IsMonth a
    → IsMonth b
    → (entries : List FixedCostEntry)
    → let r = fixed_costs_for_period (first_day a) (last_day b) entries in
      (r.estimated ≡ false)
      × (r.total_amount ≡ total (map (λ e. total (in_full e (whole_months a b))) entries))
unfolding fixed_costs_for_period
fixed_costs_for_period-whole a b p q entries = (
  none_found (line_for_entry (first_day a) (last_day b)) (λ l. l.apportioned)
      (λ e l found. line-IsExact a b p q e l found) entries,
  total-whole a b p q entries,
)

keep-append :
    {A : Type 0} (p : A → Bool) (xs ys : List A) → keep p (xs ++ ys) ≡ keep p xs ++ keep p ys
keep-append p [] ys = refl
keep-append p (x ∷ xs) ys = ground (arith, keep-append p xs ys)

in_full-append :
    (e : FixedCostEntry) (xs ys : List YearMonth)
    → in_full e (xs ++ ys) ≡ in_full e xs ++ in_full e ys
in_full-append e xs ys =
    ap (map (λ _. e.amount)) (keep-append (applies_in_month e) xs ys)
    ∙ map-append (λ _. e.amount) (keep (applies_in_month e) xs) (keep (applies_in_month e) ys)

total-pairs :
    (f g : FixedCostEntry → Money) (entries : List FixedCostEntry)
    → total (map (λ e. plus (f e) (g e)) entries)
      ≡ plus (total (map f entries)) (total (map g entries))
total-pairs f g [] = rw total-nil (sym (plus_zero zero_money))
total-pairs f g (e ∷ entries) =
    total-cons (plus (f e) (g e)) (map (λ e. plus (f e) (g e)) entries)
    ∙ ap (plus (plus (f e) (g e))) (total-pairs f g entries)
    ∙ plus_interchange (f e) (g e) (total (map f entries)) (total (map g entries))
    ∙ ap₂ plus (sym (total-cons (f e) (map f entries))) (sym (total-cons (g e) (map g entries)))

-- Ranges of whole months that meet add up: the costs up to the end of one month and those from the
-- start of the next come to the costs of the whole range.
pub fixed_costs_for_period-split :
    (a b c : YearMonth)
    → IsMonth a
    → IsMonth b
    → IsMonth c
    → month_index a ≤ suc (month_index b)
    → month_index b ≤ month_index c
    → (entries : List FixedCostEntry)
    → (fixed_costs_for_period (first_day a) (last_day c) entries).total_amount
      ≡ plus
          (fixed_costs_for_period (first_day a) (last_day b) entries).total_amount
          (fixed_costs_for_period (first_day (next_month b)) (last_day c) entries).total_amount
fixed_costs_for_period-split a b c p q r below above entries =
    let n = next_month-IsMonth b q in
    rw
      (
        total-whole a c p r entries,
        total-whole a b p q entries,
        total-whole (next_month b) c n r entries,
      )
      (ap (λ f. total (map f entries))
          (fun_ext (λ e.
            ap total (
              ap (in_full e) (
                months_from-split (month_count a c) (month_count a b) (month_count (next_month b) c)
                  a b c p q r below above (omega arith) (omega arith) (omega arith))
              ∙ in_full-append e (whole_months a b) (whole_months (next_month b) c))
            ∙ total-append (in_full e (whole_months a b))
                (in_full e (whole_months (next_month b) c))))
        ∙ total-pairs (λ e. total (in_full e (whole_months a b)))
            (λ e. total (in_full e (whole_months (next_month b) c))) entries)
