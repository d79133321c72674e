-- ===== src/Checklists/Tests.antt =====
-- The theorems about checklists.py for a task that was skipped.
use accounting_tool.Checklists.Others.{materialise-others}
use accounting_tool.Checklists.Laws.{ShowsAs, materialise-Shows}
use accounting_tool.Checklists.Recorded.{Recorded, skipping, nothing}
use accounting_tool.Calendar.{weekday_of, Date, ordinal, days_in_month, is_leap}
use accounting_tool.Checklists.{
  materialise, CompletionLog, build_checklists, occurrence_from, get, skip_task,
  occurrence_from_entry, new_log, record_entry, latest_skip_for_task, window_for_weekday,
}
use accounting_tool.Types.{
  CompletionEntry, TaskTemplate, AvailabilityWindow, weekly_list, completed, Assignee,
}
use accounting_tool.Prelude.{
  ℕ, ◌≢◌, List, String, ne_of_beq, [], some, none, length, ◌∷◌, ◌≡◌, map, refl, string_eq,
}

abbrev day : ℕ → Date
day d = record { year = 2026; month = 5; day = d }

abbrev keg_weigh : TaskTemplate
keg_weigh = record {
  task_id = "keg-weigh";
  title = "Keg weigh (per brand)";
  kind = weekly_list;
  assignee_id = "noi";
}

abbrev cafe_stock : TaskTemplate
cafe_stock = record {
  task_id = "cafe-stock";
  title = "Cafe stock count";
  kind = weekly_list;
  assignee_id = "noi";
}

abbrev night : AvailabilityWindow
night = record {
  weekday = 4;
  start = record { hour = 14; minute = 0; micros = 0 };
  stop = record { hour = 16; minute = 0; micros = 0 };
}

abbrev by_assignee : List (String × Assignee)
by_assignee = ("noi", record { assignee_id = "noi"; name = "Noi"; windows = night ∷ [] }) ∷ []

abbrev log : CompletionLog
log = skip_task "keg-weigh" (day 4) "noi" "no scales" new_log

recorded : Recorded log
recorded = skipping new_log "keg-weigh" (day 4) "noi" "no scales" nothing

-- The first of May 2026 is a Friday, as is 29 February 2008.
fridays :
    map weekday_of (day 1 ∷ record { year = 2008; month = 2; day = 29 } ∷ day 4 ∷ [])
    ≡ 4 ∷ 4 ∷ 0 ∷ []
unfolding weekday_of ordinal days_in_month is_leap
fridays = refl

-- The skip is carried to later days, and to an earlier one as well.
carried :
    map (λ d. (materialise by_assignee log (day d) keg_weigh).skipped_for) (1 ∷ 4 ∷ 8 ∷ [])
    ≡ some (day 4) ∷ some (day 4) ∷ some (day 4) ∷ []
unfolding materialise occurrence_from occurrence_from_entry latest_skip_for_task skip_task
    record_entry
carried = refl

window_found : (materialise by_assignee log (day 8) keg_weigh).window ≡ some night
unfolding materialise occurrence_from occurrence_from_entry latest_skip_for_task skip_task
    record_entry window_for_weekday weekday_of ordinal days_in_month is_leap
window_found = refl

materialise-Shows_example :
    ShowsAs (get log "keg-weigh") (day 8) (materialise by_assignee log (day 8) keg_weigh)
materialise-Shows_example = materialise-Shows by_assignee log (day 8) keg_weigh recorded

apart : keg_weigh.task_id ≢ cafe_stock.task_id
apart = ne_of_beq "keg-weigh" "cafe-stock" refl

cafe_stock_untouched :
    let entry : CompletionEntry = record {
      task_id = "keg-weigh";
      occurrence_date = day 8;
      assignee_id = "noi";
      outcome = completed;
      reason = none;
    } in
    materialise by_assignee (record_entry entry log) (day 8) cafe_stock
    ≡ materialise by_assignee log (day 8) cafe_stock
cafe_stock_untouched =
    materialise-others by_assignee log (day 8) cafe_stock
      (record {
        task_id = "keg-weigh";
        occurrence_date = day 8;
        assignee_id = "noi";
        outcome = completed;
        reason = none;
      })
      recorded apart

default_lists :
    (length (build_checklists [] (day 8) (some []) none).daily.tasks ≡ 5)
    × (length (build_checklists [] (day 8) (some []) none).weekly.tasks ≡ 4)
unfolding build_checklists
default_lists = (refl, refl)
