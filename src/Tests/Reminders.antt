-- ===== src/Tests/Reminders.antt =====
-- Reminders (src/orchestrator/database.ts, src/orchestrator/reminder-dispatcher.ts) at concrete
-- inputs.
use agentic_collab.Common.{
  ◌+◌, ◌*◌, ◌≤◌, ◌<◌, ◌≡◌, refl, true, false, none, some, [], ◌∷◌, All, or_else,
}
use agentic_collab.Database.Queue.{stamp}
use agentic_collab.Database.Reminders.{
  Reminder, Reminders, listed, min_cadence, new_reminder, create_reminder, get_top_reminder,
  update_reminder_delivery, list_due_reminders,
}
use agentic_collab.Database.Reminders.Order.{create_reminder_last}
use agentic_collab.Database.Reminders.Cadence.{due-delivered}

abbrev stretch : Reminder
stretch = record {
  id = 1;
  agent_name = "bob";
  created_by = some "ann";
  prompt = "commit your work";
  cadence_minutes = 30;
  skip_if_active = false;
  sort_order = 0;
  completed = false;
  last_delivered_at = some 100;
  completed_at = none;
  created_at = 50;
}

abbrev later : Reminder
later = record stretch { id = 2; prompt = "update the docs"; sort_order = 1 }

abbrev table : Reminders
table = record { rows = later ∷ stretch ∷ []; next_id = 3 }

abbrev third : Reminder
third = new_reminder table "bob" none "rest" 10 true 9000

abbrev table_with_third : Reminders
table_with_third = record { rows = later ∷ stretch ∷ third ∷ []; next_id = 4 }

create_reminder_last_example :
    (min_cadence ≤ 10)
    × All (λ x. listed "bob" x ≡ true → x.sort_order < third.sort_order) table.rows
    × (get_top_reminder table_with_third "bob"
        ≡ some (or_else (get_top_reminder table "bob") third))
create_reminder_last_example =
    create_reminder_last table "bob" none "rest" 10 true 9000 third table_with_third
      (unfold create_reminder in refl)

due-delivered_example :
    All
      (λ r. r.id ≡ 1 → stamp 5000000 + r.cadence_minutes * 60 ≤ stamp 7000000)
      (list_due_reminders (update_reminder_delivery table 1 5000000) 7000000)
due-delivered_example = due-delivered table 1 5000000 7000000
