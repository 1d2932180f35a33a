-- ===== src/Database/Reminders.antt =====
-- The table `reminders` of src/orchestrator/database.ts. Where two pending reminders of an agent
-- share their order, the later row is taken as the first. Columns hold whole seconds.
pub mod Order
pub mod Cadence
use agentic_collab.Common.{
  ℕ, ◌+◌, ◌-◌, ◌*◌, ◌/◌, String, Bool, true, false, not, ◌&&◌, Option, none, some, List, [], ◌∷◌,
  ◌++◌, ltb, leb, ◌==◌, str_eq, if◌then◌else◌, or_else, find, update, select, count, least,
  next_order,
}
use agentic_collab.Database.Queue.{stamp}

pub record Reminder : Type 0 where
  pub id : ℕ
  pub agent_name : String
  pub created_by : Option String
  pub prompt : String
  pub cadence_minutes : ℕ
  pub skip_if_active : Bool
  pub sort_order : ℕ
  pub completed : Bool
  pub last_delivered_at : Option ℕ
  pub completed_at : Option ℕ
  pub created_at : ℕ

-- The table and the next value of its `AUTOINCREMENT` key.
pub record Reminders : Type 0 where
  pub rows : List Reminder
  pub next_id : ℕ

abbrev pub min_cadence : ℕ
min_cadence = 5

-- `agent_name = ? AND status = 'pending'`
abbrev pub listed : String → Reminder → Bool
listed agent r = str_eq r.agent_name agent && not r.completed

abbrev pub order_of : Reminder → ℕ
order_of r = r.sort_order

abbrev pub has_id : ℕ → Reminder → Bool
has_id id r = r.id == id

unfoldable pub new_reminder : Reminders → String → Option String → String → ℕ → Bool → ℕ → Reminder
new_reminder t agent creator prompt cadence skip now = record {
  id = t.next_id;
  agent_name = agent;
  created_by = creator;
  prompt = prompt;
  cadence_minutes = cadence;
  skip_if_active = skip;
  sort_order = next_order (listed agent) order_of t.rows;
  completed = false;
  last_delivered_at = none;
  completed_at = none;
  created_at = stamp now;
}

-- `none` is the error `cadenceMinutes must be >= 5`.
unfoldable pub create_reminder :
    Reminders → String → Option String → String → ℕ → Bool → ℕ → Option (Reminder × Reminders)
create_reminder t agent creator prompt cadence skip now =
    if ltb cadence min_cadence
    then none
    else (let r = new_reminder t agent creator prompt cadence skip now in
        some (r, record { rows = t.rows ++ r ∷ []; next_id = t.next_id + 1 }))

unfoldable pub get_reminder : Reminders → ℕ → Option Reminder
get_reminder t id = find (has_id id) t.rows

abbrev pub change_row : Reminders → ℕ → (Reminder → Reminder) → Reminders
change_row t id f = record t { rows = update (has_id id) f t.rows }

unfoldable pub complete_reminder : Reminders → ℕ → ℕ → Option Reminder × Reminders
complete_reminder t id now =
    let t' =
      change_row t id (λ r. record r { completed = true; completed_at = some (stamp now) }) in
    (get_reminder t' id, t')

unfoldable pub delete_reminder : Reminders → ℕ → Bool × Reminders
delete_reminder t id =
    (ltb 0 (count (has_id id) t.rows), record t { rows = select (λ r. not (has_id id r)) t.rows })

unfoldable pub swap_found : Reminders → ℕ → ℕ → Option Reminder → Option Reminder → Bool × Reminders
swap_found t id1 id2 none o = (false, t)
swap_found t id1 id2 (some r1) none = (false, t)
swap_found t id1 id2 (some r1) (some r2) =
    if str_eq r1.agent_name r2.agent_name
    then (
      true,
      change_row (change_row t id1 (λ r. record r { sort_order = r2.sort_order })) id2
          (λ r. record r { sort_order = r1.sort_order }),
    )
    else (false, t)

unfoldable pub swap_reminder_order : Reminders → ℕ → ℕ → Bool × Reminders
swap_reminder_order t id1 id2 = swap_found t id1 id2 (get_reminder t id1) (get_reminder t id2)

unfoldable pub get_top_reminder : Reminders → String → Option Reminder
get_top_reminder t agent = least (listed agent) order_of t.rows

-- The `SET` of `updateReminder`; `none` leaves a column alone.
abbrev pub set_reminder : Option String → Option ℕ → Option Bool → Reminder → Reminder
set_reminder prompt cadence skip r = record r {
  prompt = or_else prompt r.prompt;
  cadence_minutes = or_else cadence r.cadence_minutes;
  skip_if_active = or_else skip r.skip_if_active;
}

abbrev pub too_frequent : Option ℕ → Bool
too_frequent none = false
too_frequent (some cadence) = ltb cadence min_cadence

-- `none` is the error `cadenceMinutes must be >= 5`.
unfoldable pub update_reminder :
    Reminders → ℕ → Option String → Option ℕ → Option Bool → Option (Option Reminder × Reminders)
update_reminder t id prompt cadence skip =
    if too_frequent cadence
    then none
    else (let t' = change_row t id (set_reminder prompt cadence skip) in
        some (get_reminder t' id, t'))

unfoldable pub update_reminder_delivery : Reminders → ℕ → ℕ → Reminders
update_reminder_delivery t id now =
    change_row t id (λ r. record r { last_delivered_at = some (stamp now) })

-- `last_delivered_at IS NULL OR … >= cadence_minutes * 60`
abbrev pub cadence_elapsed : ℕ → ℕ → Option ℕ → Bool
cadence_elapsed now cadence none = true
cadence_elapsed now cadence (some last) = leb (last + cadence * 60) (stamp now)

abbrev pub has_order : ℕ → Option Reminder → Bool
has_order order none = false
has_order order (some top) = order == top.sort_order

-- The row of the join with `MIN(sort_order)` by agent.
abbrev pub is_due_row : Reminders → ℕ → Reminder → Bool
is_due_row t now r =
    not r.completed
    && has_order r.sort_order (least (listed r.agent_name) order_of t.rows)
    && cadence_elapsed now r.cadence_minutes r.last_delivered_at

unfoldable pub list_due_reminders : Reminders → ℕ → List Reminder
list_due_reminders t now = select (is_due_row t now) t.rows
