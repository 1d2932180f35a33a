-- ===== src/Database/Reminders/Cadence.antt =====
-- How often a reminder is due (src/orchestrator/database.ts).
use agentic_collab.Common.{
  ℕ, ◌+◌, ◌*◌, ◌≤◌, ◌≡◌, Bool, true, some, List, [], ◌∷◌, arith, All, false_ne_true, inl, inr,
  Bool-cases, ==_iff, update, select,
}
use agentic_collab.Database.Queue.{stamp}
use agentic_collab.Database.Reminders.{
  Reminder, Reminders, has_id, update_reminder_delivery, list_due_reminders, is_due_row,
  cadence_elapsed,
}

due_later :
    (rows : List Reminder) (p : Reminder → Bool) (id now later : ℕ)
    → ((r : Reminder)
        → p r ≡ true
        → cadence_elapsed later r.cadence_minutes r.last_delivered_at ≡ true)
    → All
        (λ r. r.id ≡ id → stamp now + r.cadence_minutes * 60 ≤ stamp later)
        (select p
          (update (has_id id) (λ r. record r { last_delivered_at = some (stamp now) }) rows))
due_later [] p id now later h = tt
due_later (r ∷ rows) p id now later h = elim (Bool-cases (has_id id r)) [
  | inl e ↦ rw e (
      let r' = record r { last_delivered_at = some (stamp now) } in
      elim (Bool-cases (p r')) [
        | inl k ↦ rw k ((λ q. let due = h r' k in ground arith), due_later rows p id now later h)
        | inr k ↦ rw k (due_later rows p id now later h)
      ])
  | inr e ↦ rw e (elim (Bool-cases (p r)) [
    | inl k ↦
        rw k
          ((λ q. absurd (false_ne_true e ((==_iff r.id id).1 q))), due_later rows p id now later h)
    | inr k ↦ rw k (due_later rows p id now later h)
  ])
]

-- Once a reminder was delivered, it is not due again before its cadence has gone by, whatever other
-- reminders there are.
pub due-delivered :
    (t : Reminders) (id now later : ℕ)
    → All
        (λ r. r.id ≡ id → stamp now + r.cadence_minutes * 60 ≤ stamp later)
        (list_due_reminders (update_reminder_delivery t id now) later)
unfolding list_due_reminders update_reminder_delivery
due-delivered t id now later =
    let t' = update_reminder_delivery t id now in
    due_later t.rows (is_due_row t' later) id now later (λ r e. ground arith)
