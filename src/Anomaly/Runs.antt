-- ===== src/Anomaly/Runs.antt =====
-- The rule of three shifts in a row of anomaly.py, against the runs of a cashier's own closes.
use accounting_tool.Prelude.Sort.{sort}
use accounting_tool.Prelude.Dict.{
  get_or, get_or-insert, IsUnique, lookup, insert-IsUnique, lookup-absent, lookup-cons_here,
  lookup-cons_past,
}
use accounting_tool.Types.{ShiftClose, AnomalyFlag}
use accounting_tool.Anomaly.{
  walk_closes, is_short, walk_close, next_streak, AnomalyConfig, drawer_run_flags, run_flag,
  run_of_shifts_threshold, closed_before,
}
use accounting_tool.Prelude.{
  ℕ, List, String, Bool, ◌=?◌, map, ◌≤◌, ◌∷◌, ◌≡◌, if◌then◌else◌, suc, max, arith, ◌+◌, keep, true,
  Bool-cases, [], false, inl, string_eq, ◌∙◌, inr, refl, ap₂, eq_sound, ap, any, collect, leb, sym,
  none, subst, ◌&&◌, ◌||◌,
}

-- The cashier's own closes in the order of the list, each short or not.
abbrev pub shorts : String → List ShiftClose → List Bool
shorts cashier_id closes = map is_short (keep (λ c. cashier_id =? c.cashier_id) closes)

-- How many closes in a row are short from the start of the list,
abbrev pub short_start : List Bool → ℕ
short_start [] = 0
short_start (true ∷ bs) = suc (short_start bs)
short_start (false ∷ bs) = 0

-- and in the longest such run anywhere in it.
abbrev pub longest_run : List Bool → ℕ
longest_run [] = 0
longest_run (b ∷ bs) = max (short_start (b ∷ bs)) (longest_run bs)

-- What the loop does to the two numbers of one cashier.
abbrev walk_shorts : ℕ → ℕ → List Bool → ℕ
walk_shorts streak longest [] = longest
walk_shorts streak longest (b ∷ bs) =
    let next = if b then suc streak else 0 in walk_shorts next (max longest next) bs

short_start_le : (bs : List Bool) → short_start bs ≤ longest_run bs
short_start_le [] = omega arith
short_start_le (true ∷ bs) = ground arith
short_start_le (false ∷ bs) = ground arith

walk_shorts_lem :
    (streak longest : ℕ) (bs : List Bool)
    → streak ≤ longest
    → walk_shorts streak longest bs ≡ max longest (max (streak + short_start bs) (longest_run bs))
walk_shorts_lem streak longest [] h = ground (arith, h)
walk_shorts_lem streak longest (true ∷ bs) h = ground (
  arith,
  h,
  short_start_le bs,
  walk_shorts_lem (suc streak) (max longest (suc streak)) bs (ground (arith, h)),
)
walk_shorts_lem streak longest (false ∷ bs) h =
    ground (arith, h, short_start_le bs, walk_shorts_lem 0 (max longest 0) bs (ground arith))

walk_close_mine :
    (cashier_id : String) (c : ShiftClose) (streaks longest : List (String × ℕ))
    → (cashier_id =? c.cashier_id) ≡ true
    → (get_or cashier_id 0 (walk_close c (streaks, longest)).0
        ≡ next_streak c (get_or cashier_id 0 streaks))
      × (get_or cashier_id 0 (walk_close c (streaks, longest)).1
          ≡ max (get_or cashier_id 0 longest) (next_streak c (get_or cashier_id 0 streaks)))
walk_close_mine cashier_id c streaks longest mine =
    let e = eq_sound cashier_id c.cashier_id mine in
    let streak = next_streak c (get_or c.cashier_id 0 streaks) in
    (
      get_or-insert c.cashier_id cashier_id streak 0 streaks
          ∙ rw mine (ap (λ (k : String). next_streak c (get_or k 0 streaks)) (sym e)),
      get_or-insert c.cashier_id cashier_id (max (get_or c.cashier_id 0 longest) streak) 0 longest
          ∙ rw mine (
              ap (λ (k : String). max (get_or k 0 longest) (next_streak c (get_or k 0 streaks)))
                (sym e)),
    )

walk_close_other :
    (cashier_id : String) (c : ShiftClose) (streaks longest : List (String × ℕ))
    → (cashier_id =? c.cashier_id) ≡ false
    → (get_or cashier_id 0 (walk_close c (streaks, longest)).0 ≡ get_or cashier_id 0 streaks)
      × (get_or cashier_id 0 (walk_close c (streaks, longest)).1 ≡ get_or cashier_id 0 longest)
walk_close_other cashier_id c streaks longest other =
    let streak = next_streak c (get_or c.cashier_id 0 streaks) in
    (
      get_or-insert c.cashier_id cashier_id streak 0 streaks ∙ rw other refl,
      get_or-insert c.cashier_id cashier_id (max (get_or c.cashier_id 0 longest) streak) 0 longest
          ∙ rw other refl,
    )

walk_closes_lem :
    (cashier_id : String) (closes : List ShiftClose) (streaks longest : List (String × ℕ))
    → get_or cashier_id 0 (walk_closes closes (streaks, longest)).1
      ≡ walk_shorts
          (get_or cashier_id 0 streaks)
          (get_or cashier_id 0 longest)
          (shorts cashier_id closes)
unfolding walk_closes
walk_closes_lem cashier_id [] streaks longest = refl
walk_closes_lem cashier_id (c ∷ closes) streaks longest =
    elim (Bool-cases (cashier_id =? c.cashier_id)) [
      | inl mine ↦
          let step = walk_close_mine cashier_id c streaks longest mine in
          let rest =
            walk_closes_lem cashier_id closes (walk_close c (streaks, longest)).0
              (walk_close c (streaks, longest)).1 in
          rest ∙ rw mine (ap₂ (λ a b. walk_shorts a b (shorts cashier_id closes)) step.0 step.1)
      | inr other ↦
          let step = walk_close_other cashier_id c streaks longest other in
          let rest =
            walk_closes_lem cashier_id closes (walk_close c (streaks, longest)).0
              (walk_close c (streaks, longest)).1 in
          rest ∙ rw other (ap₂ (λ a b. walk_shorts a b (shorts cashier_id closes)) step.0 step.1)
    ]

walk_closes-IsUnique :
    (closes : List ShiftClose) (streaks longest : List (String × ℕ))
    → IsUnique longest
    → IsUnique (walk_closes closes (streaks, longest)).1
unfolding walk_closes
walk_closes-IsUnique [] streaks longest h = h
walk_closes-IsUnique (c ∷ closes) streaks longest h =
    let streak = next_streak c (get_or c.cashier_id 0 streaks) in
    walk_closes-IsUnique closes (walk_close c (streaks, longest)).0
      (walk_close c (streaks, longest)).1
      (insert-IsUnique c.cashier_id (max (get_or c.cashier_id 0 longest) streak) longest h)

abbrev names_cashier : String → AnomalyFlag → Bool
names_cashier cashier_id f = cashier_id =? f.cashier_id

if_or : (a b : Bool) → (if a then true else b) ≡ (a || b)
if_or true b = refl
if_or false b = refl

and_true : (a : Bool) → (a && true || false) ≡ a
and_true true = refl
and_true false = refl

and_false : (a b : Bool) → (a && false || b) ≡ b
and_false true b = refl
and_false false b = refl

-- What the cashier `c` with the longest run `n` adds.
run_flags_cons :
    (config : AnomalyConfig) (cashier_id c : String) (n : ℕ) (longest : List (String × ℕ))
    → any (names_cashier cashier_id) (collect (run_flag config) ((c, n) ∷ longest)) ≡ (
        (leb run_of_shifts_threshold n && (cashier_id =? c))
        || any (names_cashier cashier_id) (collect (run_flag config) longest))
run_flags_cons config cashier_id c n longest = elim (Bool-cases (leb run_of_shifts_threshold n)) [
  | inl long ↦
      rw (collect, run_flag, long)
        (if_or (cashier_id =? c)
          (any (names_cashier cashier_id) (collect (run_flag config) longest)))
  | inr short ↦ rw (collect, run_flag, short) refl
]

no_run_flags :
    (config : AnomalyConfig) (cashier_id : String) (longest : List (String × ℕ))
    → lookup cashier_id longest ≡ none
    → any (names_cashier cashier_id) (collect (run_flag config) longest) ≡ false
no_run_flags config cashier_id [] h = refl
no_run_flags config cashier_id ((c, n) ∷ longest) h =
    let apart = lookup-absent cashier_id c n longest h in
    run_flags_cons config cashier_id c n longest
    ∙ rw (apart.0, no_run_flags config cashier_id longest apart.1) (ground arith)

run_flags_lem :
    (config : AnomalyConfig) (cashier_id : String) (longest : List (String × ℕ))
    → IsUnique longest
    → any (names_cashier cashier_id) (collect (run_flag config) longest)
      ≡ leb run_of_shifts_threshold (get_or cashier_id 0 longest)
run_flags_lem config cashier_id [] h = refl
run_flags_lem config cashier_id ((c, n) ∷ longest) h =
    run_flags_cons config cashier_id c n longest ∙ elim (Bool-cases (cashier_id =? c)) [
      | inl mine ↦
          let absent =
            subst (λ (k : String). lookup k longest ≡ none) (sym (eq_sound cashier_id c mine))
              h.0 in
          let first : get_or cashier_id 0 ((c, n) ∷ longest) ≡ n =
            rw (get_or, lookup-cons_here cashier_id c n longest mine) refl in
          rw (mine, no_run_flags config cashier_id longest absent)
            (and_true (leb run_of_shifts_threshold n)
              ∙ ap (leb run_of_shifts_threshold) (sym first))
      | inr other ↦
          let past : get_or cashier_id 0 ((c, n) ∷ longest) ≡ get_or cashier_id 0 longest =
            rw (get_or, lookup-cons_past cashier_id c n longest other) refl in
          rw (other, run_flags_lem config cashier_id longest h.1)
            (and_false (leb run_of_shifts_threshold n)
                (leb run_of_shifts_threshold (get_or cashier_id 0 longest))
              ∙ ap (leb run_of_shifts_threshold) (sym past))
    ]

-- A cashier is flagged for shifts in a row exactly when the longest run of short closes among
-- their own, in the order of time, is three or more: the closes of others in between neither
-- lengthen the run nor end it.
pub drawer_run_flags-longest_run :
    (config : AnomalyConfig) (closes : List ShiftClose) (cashier_id : String)
    → any (λ f. cashier_id =? f.cashier_id) (drawer_run_flags config closes)
      ≡ leb 3 (longest_run (shorts cashier_id (sort closed_before closes)))
unfolding drawer_run_flags
drawer_run_flags-longest_run config closes cashier_id =
    let ordered = sort closed_before closes in
    run_flags_lem config cashier_id (walk_closes ordered ([], [])).1
      (walk_closes-IsUnique ordered [] [] tt)
    ∙ ap (leb 3) (
        walk_closes_lem cashier_id ordered [] []
        ∙ walk_shorts_lem 0 0 (shorts cashier_id ordered) (omega arith)
        ∙ ground (arith, short_start_le (shorts cashier_id ordered)))
