-- ===== src/Checklists/Laws.antt =====
-- What a task shows on a day, from what was recorded for it in checklists.py.
use accounting_tool.Prelude.Dict.{IsUnique, lookup}
use accounting_tool.Checklists.Recorded.{
  IsKeyed, Recorded, entry_got, get_entry, Recorded-IsKeyed, Recorded-IsUnique,
}
use accounting_tool.Checklists.{
  latest_from, CompletionLog, occurrence_from, materialise, latest_skip_for_task,
  occurrence_from_entry, entries_of, get, carried_from, assignee_window, latest_entry,
}
use accounting_tool.Types.{
  CompletionEntry, TaskOutcome, TaskState, TaskOccurrence, completed, Assignee, done, TaskTemplate,
  AvailabilityWindow, skipped, skipped_state, pending,
}
use accounting_tool.Calendar.{before, Date, before_irrefl, not_after_trans, date_eq}
use accounting_tool.Prelude.{
  List, All, ◌≡◌, In, ◌∷◌, true, false, refl, arith, inl, Bool-cases, subst, inr, [], Option,
  String, some, none, ◌⊎◌, Option-cases, sym, All-In, string_eq, pair_eq,
}

-- No other entry of the task has a date after that of `latest`.
abbrev pub IsNewest : List CompletionEntry → CompletionEntry → Type 0
IsNewest es latest = All (λ e. before latest.occurrence_date e.occurrence_date ≡ false) es

not_before_trans : (a b c : Date) → before a b ≡ true → before c b ≡ false → before c a ≡ false
unfolding before
not_before_trans a b c h k = ground arith

latest_from_newer :
    (best e : CompletionEntry) (es : List CompletionEntry)
    → before best.occurrence_date e.occurrence_date ≡ true
    → latest_from e es ≡ latest_from best (e ∷ es)
latest_from_newer best e es h = rw (latest_from, h) refl

latest_from_older :
    (best e : CompletionEntry) (es : List CompletionEntry)
    → before best.occurrence_date e.occurrence_date ≡ false
    → latest_from best es ≡ latest_from best (e ∷ es)
latest_from_older best e es h = rw (latest_from, h) refl

latest_from-In :
    (best : CompletionEntry) (es : List CompletionEntry) → In (latest_from best es) (best ∷ es)
latest_from-In best [] = inl refl
latest_from-In best (e ∷ es) = elim (Bool-cases (before best.occurrence_date e.occurrence_date)) [
  | inl newer ↦
      subst (λ x. In x (best ∷ e ∷ es)) (latest_from_newer best e es newer)
        (inr (latest_from-In e es))
  | inr older ↦
      subst (λ x. In x (best ∷ e ∷ es)) (latest_from_older best e es older)
        (elim (latest_from-In best es) [ inl q ↦ inl q | inr m ↦ inr (inr m) ])
]

latest_from-IsNewest :
    (best : CompletionEntry) (es : List CompletionEntry)
    → IsNewest (best ∷ es) (latest_from best es)
latest_from-IsNewest best [] = (before_irrefl best.occurrence_date, tt)
latest_from-IsNewest best (e ∷ es) =
    elim (Bool-cases (before best.occurrence_date e.occurrence_date)) [
      | inl newer ↦
          let rest = latest_from-IsNewest e es in
          let over =
            not_before_trans best.occurrence_date e.occurrence_date
              (latest_from e es).occurrence_date newer rest.0 in
          subst (IsNewest (best ∷ e ∷ es)) (latest_from_newer best e es newer) (over, rest)
      | inr older ↦
          let rest = latest_from-IsNewest best es in
          let under =
            not_after_trans e.occurrence_date best.occurrence_date
              (latest_from best es).occurrence_date older rest.0 in
          subst (IsNewest (best ∷ e ∷ es)) (latest_from_older best e es older)
            (rest.0, (under, rest.1))
    ]

-- Nothing was recorded for the task, or `e` was, and nothing for a date after that of `e`.
abbrev IsLastOf : (Date → Option CompletionEntry) → Option CompletionEntry → Type 0
IsLastOf view none = (on : Date) → view on ≡ none
IsLastOf view (some e) =
    (view e.occurrence_date ≡ some e)
    × ((on : Date) → before e.occurrence_date on ≡ true → view on ≡ none)

nothing_later :
    (log : CompletionLog) (task_id : String) (e : CompletionEntry) (on : Date)
    → IsKeyed log
    → IsNewest (entries_of task_id log) e
    → before e.occurrence_date on ≡ true
    → get log task_id on ≡ none
nothing_later log task_id e on keyed newest after = elim (Option-cases (get log task_id on)) [
  | inl absent ↦ absent
  | inr (d, there) ↦
      let got = entry_got log task_id on d keyed there in
      let not_after_e =
        All-In (λ x. before e.occurrence_date x.occurrence_date ≡ false) d (entries_of task_id log)
          newest got.1 in
      let is_after : before e.occurrence_date d.occurrence_date ≡ true =
        subst (λ (x : Date). before e.occurrence_date x ≡ true) (sym got.0) after in
      absurd (ground (arith, is_after, not_after_e))
]

latest_of :
    (log : CompletionLog) (task_id : String) (es : List CompletionEntry)
    → IsKeyed log
    → IsUnique log
    → es ≡ entries_of task_id log
    → IsLastOf (get log task_id) (latest_entry es)
latest_of log task_id [] keyed unique e = λ on. elim (Option-cases (get log task_id on)) [
  | inl absent ↦ absent
  | inr (d, there) ↦ absurd (subst (In d) (sym e) (entry_got log task_id on d keyed there).1)
]
latest_of log task_id (x ∷ es) keyed unique e =
    let found = subst (In (latest_from x es)) e (latest_from-In x es) in
    let newest = subst (λ l. IsNewest l (latest_from x es)) e (latest_from-IsNewest x es) in
    (
      get_entry log task_id (latest_from x es) keyed unique found,
      λ on after. nothing_later log task_id (latest_from x es) on keyed newest after,
    )

-- What a task shows on the day `anchor`, told from what was recorded for it on each date.
pub data Shows (view : Date → Option CompletionEntry) (anchor : Date)
    : TaskState → Option TaskOutcome → Option Date → Option String → Type 0 where
  -- It was completed for the day itself,
  own_completed :
      (e : CompletionEntry)
      → view anchor ≡ some e
      → e.outcome ≡ completed
      → Shows view anchor done (some completed) none none
  -- or skipped for it.
  own_skipped :
      (e : CompletionEntry)
      → view anchor ≡ some e
      → e.outcome ≡ skipped
      → Shows view anchor skipped_state (some skipped) (some e.occurrence_date) e.reason
  -- The day has no entry, and the last date that has one was skipped,
  carried_over :
      (e : CompletionEntry)
      → view anchor ≡ none
      → IsLastOf view (some e)
      → e.outcome ≡ skipped
      → Shows view anchor skipped_state (some skipped) (some e.occurrence_date) e.reason
  -- or completed.
  resolved :
      (e : CompletionEntry)
      → view anchor ≡ none
      → IsLastOf view (some e)
      → e.outcome ≡ completed
      → Shows view anchor pending none none none
  untouched : IsLastOf view none → Shows view anchor pending none none none

abbrev pub ShowsAs : (Date → Option CompletionEntry) → Date → TaskOccurrence → Type 0
ShowsAs view anchor o = Shows view anchor o.state o.outcome o.skipped_for o.skipped_reason

Outcome-cases : (o : TaskOutcome) → (o ≡ completed) ⊎ (o ≡ skipped)
Outcome-cases completed = inl refl
Outcome-cases skipped = inr refl

occurrence_from-Shows :
    (view : Date → Option CompletionEntry) (tpl : TaskTemplate) (anchor : Date)
    (window : Option AvailabilityWindow) (own last : Option CompletionEntry)
    → view anchor ≡ own
    → IsLastOf view last
    → ShowsAs view anchor (occurrence_from tpl anchor window own (carried_from last))
unfolding occurrence_from occurrence_from_entry
occurrence_from-Shows view tpl anchor window (some e) last here h = elim (Outcome-cases e.outcome) [
  | inl c ↦ rw (occurrence_from_entry, c) (own_completed e here c)
  | inr c ↦ rw (occurrence_from_entry, c) (own_skipped e here c)
]
occurrence_from-Shows view tpl anchor window none none here h = untouched h
occurrence_from-Shows view tpl anchor window none (some e) here h = elim (Outcome-cases e.outcome) [
  | inl c ↦ rw (carried_from, c) (resolved e here h c)
  | inr c ↦ rw (carried_from, c) (carried_over e here h c)
]

-- Whatever was completed and skipped, in whichever order, a task shows on a day what the recorded
-- outcomes say: its outcome for that day when there is one, and else the skip of the last date
-- that has an outcome, or that it is pending when that date was completed or no date has one.
pub materialise-Shows :
    (by_assignee : List (String × Assignee)) (log : CompletionLog) (anchor : Date)
    (tpl : TaskTemplate)
    → Recorded log
    → ShowsAs (get log tpl.task_id) anchor (materialise by_assignee log anchor tpl)
unfolding materialise latest_skip_for_task
materialise-Shows by_assignee log anchor tpl r =
    occurrence_from-Shows (get log tpl.task_id) tpl anchor
      (assignee_window (lookup tpl.assignee_id by_assignee) anchor) (get log tpl.task_id anchor)
      (latest_entry (entries_of tpl.task_id log)) refl
      (latest_of log tpl.task_id (entries_of tpl.task_id log) (Recorded-IsKeyed log r)
        (Recorded-IsUnique log r) refl)
