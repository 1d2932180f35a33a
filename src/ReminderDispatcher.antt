-- ===== src/ReminderDispatcher.antt =====
-- `tick` of src/orchestrator/reminder-dispatcher.ts: the due reminders become messages of the queue,
-- and the message dispatcher is called for each.
use agentic_collab.Common.{
  ℕ, String, Bool, false, ◌&&◌, Option, none, some, List, [], ◌∷◌, str_eq, if◌then◌else◌, show,
}
use Prim.Native.String
use agentic_collab.Shared.Agent.{AgentRecord, active, state_eq}
use agentic_collab.Database.Agents.{get_agent}
use agentic_collab.Database.Queue.{enqueue_message}
use agentic_collab.Database.Reminders.{
  Reminder, Reminders, update_reminder_delivery, list_due_reminders,
}
use agentic_collab.Dispatcher.State.{Dispatcher, dashboard_message, queue_update, emit}
use agentic_collab.Dispatcher.Step.{try_deliver}

-- What a tick works on: the table and the message dispatcher with its queue.
pub record Ticker : Type 0 where
  pub reminders : Reminders
  pub dispatcher : Dispatcher

-- `agent && agent.state === 'active'`
abbrev pub is_active : Option AgentRecord → Bool
is_active none = false
is_active (some a) = state_eq a.state active

-- `reminder.createdBy || 'system'`
abbrev pub creator : Reminder → String
creator r = elim r.created_by [ none ↦ "system" | some c ↦ if str_eq c "" then "system" else c ]

unfoldable pub reminder_envelope : Reminder → String
reminder_envelope r = String.◌++◌ "[reminder #" (
    String.◌++◌ (show r.id) (
      String.◌++◌ " from " (
        String.◌++◌ (creator r) (
          String.◌++◌ "]: " (
            String.◌++◌ r.prompt
              (String.◌++◌ "\nMark done when complete: collab reminder done " (show r.id)))))))

unfoldable pub display_message : Reminder → String
display_message r = String.◌++◌ "Reminder #" (String.◌++◌ (show r.id) (String.◌++◌ ": " r.prompt))

-- The message is queued and shown, and then the dispatcher is tried.
unfoldable pub remind : Dispatcher → Reminder → ℕ → Dispatcher
remind d r now =
    let (m, queue) = enqueue_message d.queue none r.agent_name (reminder_envelope r) now in
    let shown =
      emit (record d { queue = queue }) (dashboard_message r.agent_name (display_message r)) in
    try_deliver (emit shown (queue_update m)) r.agent_name now

unfoldable pub tick_one : Ticker → Reminder → ℕ → Ticker
tick_one s r now =
    if r.skip_if_active && is_active (get_agent s.dispatcher.agents r.agent_name)
    then s
    else record {
      reminders = update_reminder_delivery s.reminders r.id now;
      dispatcher = remind s.dispatcher r now;
    }

unfoldable pub tick_all : Ticker → List Reminder → ℕ → Ticker
tick_all s [] now = s
tick_all s (r ∷ due) now = tick_all (tick_one s r now) due now

unfoldable pub tick : Ticker → ℕ → Ticker
tick s now = tick_all s (list_due_reminders s.reminders now) now
