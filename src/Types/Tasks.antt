-- ===== src/Types/Tasks.antt =====
-- types.py: the checklists and who does them.
use accounting_tool.Calendar.{Date}
use accounting_tool.Prelude.{ℕ, String, Bool, List, not, ltb, Option, ◌&&◌, ◌||◌, ◌==◌}

-- A `time` of the day.
pub record Time : Type 0 where
  pub hour : ℕ
  pub minute : ℕ
  pub micros : ℕ

pub data ChecklistKind : Type 0 where
  daily_list weekly_list : ChecklistKind

pub data TaskState : Type 0 where
  pending done skipped_state : TaskState

pub data TaskOutcome : Type 0 where
  completed skipped : TaskOutcome

pub record AvailabilityWindow : Type 0 where
  pub weekday : ℕ
  pub start : Time
  pub stop : Time

abbrev time_before : Time → Time → Bool
time_before a b =
    ltb a.hour b.hour
    || a.hour == b.hour && (ltb a.minute b.minute || a.minute == b.minute && ltb a.micros b.micros)

-- `AvailabilityWindow.contains`, half-open.
unfoldable pub is_inside : AvailabilityWindow → Time → Bool
is_inside window instant = not (time_before instant window.start) && time_before instant window.stop

pub record Assignee : Type 0 where
  pub assignee_id : String
  pub name : String
  pub windows : List AvailabilityWindow

pub record TaskTemplate : Type 0 where
  pub task_id : String
  pub title : String
  pub kind : ChecklistKind
  pub assignee_id : String

pub record CompletionEntry : Type 0 where
  pub task_id : String
  pub occurrence_date : Date
  pub assignee_id : String
  pub outcome : TaskOutcome
  pub reason : Option String

pub record TaskOccurrence : Type 0 where
  pub template : TaskTemplate
  pub occurrence_date : Date
  pub assignee_id : String
  pub window : Option AvailabilityWindow
  pub state : TaskState
  pub outcome : Option TaskOutcome
  pub skipped_for : Option Date
  pub skipped_reason : Option String

pub record ChecklistOccurrence : Type 0 where
  pub kind : ChecklistKind
  pub occurrence_date : Date
  pub tasks : List TaskOccurrence

pub record ChecklistSet : Type 0 where
  pub daily : ChecklistOccurrence
  pub weekly : ChecklistOccurrence
