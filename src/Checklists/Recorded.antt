-- ===== src/Checklists/Recorded.antt =====
-- The logs that the operations of checklists.py make.
use accounting_tool.Calendar.{Date, date_eq}
use accounting_tool.Prelude.Dict.{
  insert, IsUnique, insert-IsUnique, lookup-cons_here, lookup-later, lookup-cons_past,
}
use accounting_tool.Checklists.{
  CompletionLog, complete_task, skip_task, new_log, record_entry, get, entries_of,
}
use accounting_tool.Types.{CompletionEntry, completed, skipped}
use accounting_tool.Prelude.{
  In, ◌∷◌, [], Bool-cases, String, ◌≡◌, inl, ◌=?◌, sym, none, inr, refl, eq_sound, pair_eq,
  string_eq, some, true, arith, ap₂, ◌∙◌, beq_sound, ap,
}

-- Each entry stands under its own task and occurrence.
abbrev pub IsKeyed : CompletionLog → Type 0
IsKeyed [] = Unit
IsKeyed ((key, e) ∷ log) = (key ≡ (e.task_id, e.occurrence_date)) × IsKeyed log

-- The logs that the two operations make.
pub data Recorded : CompletionLog → Type 0 where
  nothing : Recorded new_log
  completing :
      (log : CompletionLog) (task_id : String) (on : Date) (assignee_id : String)
      → Recorded log
      → Recorded (complete_task task_id on assignee_id log)
  skipping :
      (log : CompletionLog) (task_id : String) (on : Date) (assignee_id reason : String)
      → Recorded log
      → Recorded (skip_task task_id on assignee_id reason log)

insert-IsKeyed :
    (e : CompletionEntry) (log : CompletionLog)
    → IsKeyed log
    → IsKeyed (insert (e.task_id, e.occurrence_date) e log)
insert-IsKeyed e [] h = (refl, tt)
insert-IsKeyed e ((key, d) ∷ log) h = elim (Bool-cases ((e.task_id, e.occurrence_date) =? key)) [
  | inl here ↦ rw here (sym (eq_sound (e.task_id, e.occurrence_date) key here), h.1)
  | inr past ↦ rw past (h.0, insert-IsKeyed e log h.1)
]

pub Recorded-IsKeyed : (log : CompletionLog) → Recorded log → IsKeyed log
unfolding complete_task skip_task record_entry
Recorded-IsKeyed _ nothing = tt
Recorded-IsKeyed _ (completing log task_id on assignee_id r) =
    insert-IsKeyed
      (record {
        task_id = task_id;
        occurrence_date = on;
        assignee_id = assignee_id;
        outcome = completed;
        reason = none;
      })
      log (Recorded-IsKeyed log r)
Recorded-IsKeyed _ (skipping log task_id on assignee_id reason r) =
    insert-IsKeyed
      (record {
        task_id = task_id;
        occurrence_date = on;
        assignee_id = assignee_id;
        outcome = skipped;
        reason = some reason;
      })
      log (Recorded-IsKeyed log r)

pub Recorded-IsUnique : (log : CompletionLog) → Recorded log → IsUnique log
unfolding complete_task skip_task record_entry
Recorded-IsUnique _ nothing = tt
Recorded-IsUnique _ (completing log task_id on assignee_id r) =
    insert-IsUnique (task_id, on)
      (record {
        task_id = task_id;
        occurrence_date = on;
        assignee_id = assignee_id;
        outcome = completed;
        reason = none;
      })
      log (Recorded-IsUnique log r)
Recorded-IsUnique _ (skipping log task_id on assignee_id reason r) =
    insert-IsUnique (task_id, on)
      (record {
        task_id = task_id;
        occurrence_date = on;
        assignee_id = assignee_id;
        outcome = skipped;
        reason = some reason;
      })
      log (Recorded-IsUnique log r)

entries_of_weaken :
    (key : String × Date) (d e : CompletionEntry) (log : CompletionLog) (task_id : String)
    → In e (entries_of task_id log)
    → In e (entries_of task_id ((key, d) ∷ log))
entries_of_weaken key d e log task_id m = elim (Bool-cases (d.task_id =? task_id)) [
  | inl mine ↦ rw mine (inr m)
  | inr other ↦ rw other m
]

-- In such a log a task's entries are what is found under the task and a date.
pub get_entry :
    (log : CompletionLog) (task_id : String) (e : CompletionEntry)
    → IsKeyed log
    → IsUnique log
    → In e (entries_of task_id log)
    → get log task_id e.occurrence_date ≡ some e
get_entry [] task_id e keyed unique m = absurd m
get_entry ((key, d) ∷ log) task_id e keyed unique m = elim (Bool-cases (d.task_id =? task_id)) [
  | inl mine ↦ elim (rw mine at m) [
    | inl q ↦
        let named : (task_id, e.occurrence_date) ≡ key =
          ap₂ (λ (t : String) (x : CompletionEntry). (t, x.occurrence_date))
            (sym (eq_sound d.task_id task_id mine)) q
          ∙ sym keyed.0 in
        lookup-cons_here (task_id, e.occurrence_date) key d log
          (beq_sound (task_id, e.occurrence_date) key named)
        ∙ ap some (sym q)
    | inr later ↦
        lookup-later (task_id, e.occurrence_date) key e d log unique
          (get_entry log task_id e keyed.1 unique.1 later)
  ]
  | inr other ↦
      lookup-later (task_id, e.occurrence_date) key e d log unique
        (get_entry log task_id e keyed.1 unique.1 (rw other at m))
]

pub entry_got :
    (log : CompletionLog) (task_id : String) (on : Date) (e : CompletionEntry)
    → IsKeyed log
    → get log task_id on ≡ some e
    → (e.occurrence_date ≡ on) × In e (entries_of task_id log)
entry_got [] task_id on e keyed h = absurd (ground (arith, h))
entry_got ((key, d) ∷ log) task_id on e keyed h = elim (Bool-cases ((task_id, on) =? key)) [
  | inl here ↦
      let found : some d ≡ some e = sym (lookup-cons_here (task_id, on) key d log here) ∙ h in
      let same_entry : d ≡ e = ground (arith, found) in
      let named = eq_sound (task_id, on) key here ∙ keyed.0 in
      let mine : (d.task_id =? task_id) ≡ true =
        beq_sound d.task_id task_id (sym (ap (λ k. k.0) named)) in
      (
        ap (λ x. x.occurrence_date) (sym same_entry) ∙ sym (ap (λ k. k.1) named),
        rw mine (inl (sym same_entry)),
      )
  | inr past ↦
      let rest =
        entry_got log task_id on e keyed.1
          (sym (lookup-cons_past (task_id, on) key d log past) ∙ h) in
      (rest.0, entries_of_weaken key d e log task_id rest.1)
]
