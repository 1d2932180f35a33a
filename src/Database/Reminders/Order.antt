-- ===== src/Database/Reminders/Order.antt =====
-- The order of an agent's reminders (src/orchestrator/database.ts).
use agentic_collab.Common.{
  ℕ, ◌≤◌, ◌<◌, String, ◌≡◌, refl, Bool, true, Option, none, some, List, [], ◌∷◌, ◌++◌, ltb, or_else,
  arith, All, eq_refl, if◌then◌else◌, ◌+◌, inl, inr, Bool-cases, least, next_order_lem,
  least-append, none_ne_some, some_inj, subst,
}
use agentic_collab.Database.Reminders.{
  Reminder, Reminders, listed, order_of, new_reminder, create_reminder, get_top_reminder,
  min_cadence,
}

-- The reminder and the table that a creation gives.
abbrev IsLast : Reminders → String → Reminder × Reminders → Type 0
IsLast t agent (r, t') =
    All (λ x. listed agent x ≡ true → x.sort_order < r.sort_order) t.rows
    × (get_top_reminder t' agent ≡ some (or_else (get_top_reminder t agent) r))

top-append :
    (agent : String) (rows : List Reminder) (m : Reminder)
    → listed agent m ≡ true
    → All (λ x. listed agent x ≡ true → x.sort_order < m.sort_order) rows
    → least (listed agent) order_of (rows ++ m ∷ [])
      ≡ some (or_else (least (listed agent) order_of rows) m)
top-append agent rows m l h =
    rw (least-append (listed agent) order_of rows m h) (go (least (listed agent) order_of rows))
  where
    go :
        (o : Option Reminder)
        → (elim o [ none ↦ (if listed agent m then some m else none) | some r ↦ some r ])
          ≡ some (or_else o m)
    go none = rw l refl
    go (some r) = refl

created :
    (t : Reminders) (agent : String) (creator : Option String) (prompt : String) (cadence : ℕ)
    (skip : Bool) (now : ℕ)
    → IsLast t agent (
      new_reminder t agent creator prompt cadence skip now,
      record {
        rows = t.rows ++ new_reminder t agent creator prompt cadence skip now ∷ [];
        next_id = t.next_id + 1;
      },
    )
unfolding new_reminder get_top_reminder
created t agent creator prompt cadence skip now =
    let behind = next_order_lem (listed agent) order_of t.rows in
    (behind, top-append agent t.rows _ (rw (eq_refl agent) refl) behind)

-- A reminder that is created has a cadence of five minutes at least and stands behind all pending
-- reminders of its agent; the agent's top reminder stays the same if there was one, and else is the
-- new one.
pub create_reminder_last :
    (t : Reminders) (agent : String) (creator : Option String) (prompt : String) (cadence : ℕ)
    (skip : Bool) (now : ℕ) (r : Reminder) (t' : Reminders)
    → create_reminder t agent creator prompt cadence skip now ≡ some (r, t')
    → (min_cadence ≤ cadence)
      × All (λ x. listed agent x ≡ true → x.sort_order < r.sort_order) t.rows
      × (get_top_reminder t' agent ≡ some (or_else (get_top_reminder t agent) r))
unfolding create_reminder
create_reminder_last t agent creator prompt cadence skip now r t' h =
    elim (Bool-cases (ltb cadence min_cadence)) [
      | inl e ↦ absurd (none_ne_some (rw e at h))
      | inr e ↦
          let (behind, top) =
            subst (IsLast t agent) (some_inj (rw e at h))
              (created t agent creator prompt cadence skip now) in
          (ground arith, behind, top)
    ]
