-- ===== src/Checklists.antt =====
-- checklists.py: the partners' checklists of a day and a week, and the log of what they did.
pub mod Recorded
pub mod Laws
pub mod Others
mod Tests
use accounting_tool.Prelude.Dict.{insert, lookup, insert_all}
use accounting_tool.Types.{
  TaskTemplate, CompletionEntry, ChecklistKind, daily_list, TaskOccurrence, weekly_list,
  AvailabilityWindow, Assignee, skipped, TaskState, skipped_state, completed, ChecklistSet, done,
  pending, TaskOutcome,
}
use accounting_tool.Calendar.{before, weekday_of, Date, date_eq}
use accounting_tool.Prelude.{
  ℕ, String, List, Option, [], ◌++◌, keep, some, none, map, ◌∷◌, if◌then◌else◌, pair_eq, ◌=?◌,
  string_eq, ◌==◌,
}

-- `CompletionLog`: the entries under their task and occurrence.
abbrev pub CompletionLog : Type 0
CompletionLog = List ((String × Date) × CompletionEntry)

abbrev pub new_log : CompletionLog
new_log = []

abbrev template : String → String → ChecklistKind → String → TaskTemplate
template task_id title kind assignee_id = record {
  task_id = task_id;
  title = title;
  kind = kind;
  assignee_id = assignee_id;
}

abbrev pub default_daily_templates : List TaskTemplate
default_daily_templates =
    template "open-daily-review" "Open the daily review" daily_list "daniel"
    ∷ template "review-segment-flags" "Review segment flags" daily_list "daniel"
    ∷ template "review-margin-anomalies" "Review item-level margin anomalies" daily_list "daniel"
    ∷ template "review-cash-void-flags" "Review cash/void flags" daily_list "daniel"
    ∷ template "mark-daily-done" "Mark done" daily_list "daniel"
    ∷ []

abbrev pub default_weekly_templates : List TaskTemplate
default_weekly_templates =
    template "keg-weigh" "Keg weigh (per brand)" weekly_list "daniel"
    ∷ template "cafe-stock" "Cafe stock count (per cadence)" weekly_list "daniel"
    ∷ template "receipt-queue" "Receipt approval queue cleared" weekly_list "noi"
    ∷ template "fixed-cost-entry" "Fixed cost entry (if any new this week)" weekly_list "noi"
    ∷ []

-- `CompletionLog.entries` and `.get`
abbrev pub entries : CompletionLog → List CompletionEntry
entries log = map (λ p. p.1) log

abbrev pub get : CompletionLog → String → Date → Option CompletionEntry
get log task_id occurrence_date = lookup (task_id, occurrence_date) log

-- `max(..., key=lambda e: e.occurrence_date)`: the first of the latest.
abbrev pub latest_from : CompletionEntry → List CompletionEntry → CompletionEntry
latest_from best [] = best
latest_from best (e ∷ es) =
    latest_from (if before best.occurrence_date e.occurrence_date then e else best) es

abbrev pub latest_entry : List CompletionEntry → Option CompletionEntry
latest_entry [] = none
latest_entry (e ∷ es) = some (latest_from e es)

abbrev pub entries_of : String → CompletionLog → List CompletionEntry
entries_of task_id log = keep (λ e. e.task_id =? task_id) (entries log)

-- What is carried on from the latest entry.
abbrev pub carried_from : Option CompletionEntry → Option CompletionEntry
carried_from none = none
carried_from (some latest) = elim latest.outcome [ completed ↦ none | skipped ↦ some latest ]

unfoldable pub latest_skip_for_task : CompletionLog → String → Option CompletionEntry
unfolding before
latest_skip_for_task log task_id = carried_from (latest_entry (entries_of task_id log))

-- `CompletionLog._record`
unfoldable pub record_entry : CompletionEntry → CompletionLog → CompletionLog
record_entry entry log = insert (entry.task_id, entry.occurrence_date) entry log

unfoldable pub complete_task : String → Date → String → CompletionLog → CompletionLog
unfolding record_entry
complete_task task_id occurrence_date assignee_id log =
    record_entry
      (record {
        task_id = task_id;
        occurrence_date = occurrence_date;
        assignee_id = assignee_id;
        outcome = completed;
        reason = none;
      })
      log

unfoldable pub skip_task : String → Date → String → String → CompletionLog → CompletionLog
unfolding record_entry
skip_task task_id occurrence_date assignee_id reason log =
    record_entry
      (record {
        task_id = task_id;
        occurrence_date = occurrence_date;
        assignee_id = assignee_id;
        outcome = skipped;
        reason = some reason;
      })
      log

-- `_window_for_weekday`
abbrev pub first_window : ℕ → List AvailabilityWindow → Option AvailabilityWindow
first_window weekday [] = none
first_window weekday (w ∷ windows) =
    if w.weekday == weekday then some w else first_window weekday windows

unfoldable pub window_for_weekday : Assignee → Date → Option AvailabilityWindow
unfolding weekday_of
window_for_weekday assignee anchor = first_window (weekday_of anchor) assignee.windows

abbrev occurrence :
    TaskTemplate
    → Date
    → Option AvailabilityWindow
    → TaskState
    → Option TaskOutcome
    → Option Date
    → Option String
    → TaskOccurrence
occurrence tpl anchor window state outcome skipped_for skipped_reason = record {
  template = tpl;
  occurrence_date = anchor;
  assignee_id = tpl.assignee_id;
  window = window;
  state = state;
  outcome = outcome;
  skipped_for = skipped_for;
  skipped_reason = skipped_reason;
}

unfoldable pub occurrence_from_entry :
    TaskTemplate → Date → Option AvailabilityWindow → CompletionEntry → TaskOccurrence
occurrence_from_entry tpl anchor window entry = elim entry.outcome [
  | completed ↦ occurrence tpl anchor window done (some completed) none none
  | skipped ↦
      occurrence tpl anchor window skipped_state (some skipped) (some entry.occurrence_date)
        entry.reason
]

-- What `_materialise` makes of the exact entry and of the skip that is carried on.
unfoldable pub occurrence_from :
    TaskTemplate
    → Date
    → Option AvailabilityWindow
    → Option CompletionEntry
    → Option CompletionEntry
    → TaskOccurrence
unfolding occurrence_from_entry
occurrence_from tpl anchor window (some entry) carried =
    occurrence_from_entry tpl anchor window entry
occurrence_from tpl anchor window none (some carried) =
    occurrence tpl anchor window skipped_state (some skipped) (some carried.occurrence_date)
      carried.reason
occurrence_from tpl anchor window none none = occurrence tpl anchor window pending none none none

abbrev pub assignee_window : Option Assignee → Date → Option AvailabilityWindow
assignee_window none anchor = none
assignee_window (some assignee) anchor = window_for_weekday assignee anchor

unfoldable pub materialise :
    List (String × Assignee) → CompletionLog → Date → TaskTemplate → TaskOccurrence
unfolding occurrence_from latest_skip_for_task window_for_weekday
materialise by_assignee log anchor tpl =
    occurrence_from tpl anchor (assignee_window (lookup tpl.assignee_id by_assignee) anchor)
      (get log tpl.task_id anchor) (latest_skip_for_task log tpl.task_id)

-- The loop over the templates, a pair of the daily and the weekly tasks.
abbrev pub add_tasks :
    (TaskTemplate → TaskOccurrence)
    → List TaskTemplate
    → List TaskOccurrence
    → List TaskOccurrence
    → List TaskOccurrence × List TaskOccurrence
add_tasks make [] daily_tasks weekly_tasks = (daily_tasks, weekly_tasks)
add_tasks make (tpl ∷ templates) daily_tasks weekly_tasks = elim tpl.kind [
  | daily_list ↦ add_tasks make templates (daily_tasks ++ (make tpl ∷ [])) weekly_tasks
  | weekly_list ↦ add_tasks make templates daily_tasks (weekly_tasks ++ (make tpl ∷ []))
]

-- `task_templates or ...`: no list, and an empty one, give the default.
abbrev pub templates_or_default : Option (List TaskTemplate) → List TaskTemplate
templates_or_default none = default_daily_templates ++ default_weekly_templates
templates_or_default (some []) = default_daily_templates ++ default_weekly_templates
templates_or_default (some (tpl ∷ templates)) = tpl ∷ templates

abbrev pub log_or_new : Option CompletionLog → CompletionLog
log_or_new none = new_log
log_or_new (some log) = log

unfoldable pub build_checklists :
    List Assignee → Date → Option (List TaskTemplate) → Option CompletionLog → ChecklistSet
unfolding materialise
build_checklists assignees anchor task_templates completion_log =
    let by_assignee = insert_all (map (λ a. (a.assignee_id, a)) assignees) [] in
    let made =
      add_tasks (materialise by_assignee (log_or_new completion_log) anchor)
        (templates_or_default task_templates) [] [] in
    record {
      daily = record { kind = daily_list; occurrence_date = anchor; tasks = made.0 };
      weekly = record { kind = weekly_list; occurrence_date = anchor; tasks = made.1 };
    }
