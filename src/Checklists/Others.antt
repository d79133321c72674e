-- ===== src/Checklists/Others.antt =====
-- What recording an outcome in checklists.py leaves alone.
use accounting_tool.Prelude.Dict.{insert, lookup, lookup-insert_ne}
use accounting_tool.Calendar.{Date, date_eq}
use accounting_tool.Checklists.Recorded.{IsKeyed, Recorded, Recorded-IsKeyed}
use accounting_tool.Checklists.{
  materialise, CompletionLog, latest_skip_for_task, record_entry, entries_of, occurrence_from,
  assignee_window, carried_from, latest_entry,
}
use accounting_tool.Types.{CompletionEntry, TaskTemplate, Assignee}
use accounting_tool.Prelude.{
  String, List, ◌≡◌, ◌=?◌, false, ◌≢◌, [], ◌∷◌, Bool-cases, inl, ap, eq_sound, ◌∙◌, subst, inr,
  if◌then◌else◌, string_eq, pair_eq, refl, ap₂, beq_of_ne, sym,
}

entries_of-other :
    (e : CompletionEntry) (log : CompletionLog) (task_id : String)
    → IsKeyed log
    → (e.task_id =? task_id) ≡ false
    → entries_of task_id (insert (e.task_id, e.occurrence_date) e log) ≡ entries_of task_id log
entries_of-other e [] task_id keyed other = rw other refl
entries_of-other e ((key, d) ∷ log) task_id keyed other =
    elim (Bool-cases ((e.task_id, e.occurrence_date) =? key)) [
      | inl here ↦
          let named = ap (λ k. k.0) (eq_sound (e.task_id, e.occurrence_date) key here ∙ keyed.0) in
          let other_d : (d.task_id =? task_id) ≡ false =
            subst (λ (t : String). (t =? task_id) ≡ false) named other in
          rw (here, other, other_d) refl
      | inr past ↦ rw past (
          ap (λ l. if d.task_id =? task_id then d ∷ l else l)
            (entries_of-other e log task_id keyed.1 other))
    ]

-- Recording an outcome of a task changes nothing that another task shows, on any day.
pub materialise-others :
    (by_assignee : List (String × Assignee)) (log : CompletionLog) (anchor : Date)
    (tpl : TaskTemplate) (entry : CompletionEntry)
    → Recorded log
    → entry.task_id ≢ tpl.task_id
    → materialise by_assignee (record_entry entry log) anchor tpl
      ≡ materialise by_assignee log anchor tpl
unfolding materialise latest_skip_for_task record_entry
materialise-others by_assignee log anchor tpl entry r apart =
    let other = beq_of_ne entry.task_id tpl.task_id apart in
    let key_apart = λ (q : (tpl.task_id, anchor) ≡ (entry.task_id, entry.occurrence_date)).
      apart (sym (ap (λ k. k.0) q)) in
    ap₂
      (λ own es.
        occurrence_from tpl anchor (assignee_window (lookup tpl.assignee_id by_assignee) anchor) own
          (carried_from (latest_entry es)))
      (lookup-insert_ne (entry.task_id, entry.occurrence_date) (tpl.task_id, anchor) entry log
        key_apart)
      (entries_of-other entry log tpl.task_id (Recorded-IsKeyed log r) other)
