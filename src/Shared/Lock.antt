-- ===== src/Shared/Lock.antt =====
-- src/shared/lock.ts: timed locks on agents, one row each in the table `agent_locks`. Times are
-- milliseconds; the random lock id is an argument.
pub mod Exclusion
pub mod Waiting
use agentic_collab.Common.{
  ℕ, zero, suc, ◌+◌, ◌-◌, String, Bool, true, false, not, ◌&&◌, Option, none, some, List, [], ◌∷◌,
  ◌++◌, ltb, leb, ◌==◌, str_eq, if◌then◌else◌, is_some, find, select, count,
}

pub record LockRow : Type 0 where
  pub agent_name : String
  pub locked_by : String
  pub locked_at : ℕ
  pub expires_at : ℕ

abbrev pub Table : Type 0
Table = List LockRow

abbrev pub default_duration_ms : ℕ
default_duration_ms = 30000

abbrev pub default_timeout_ms : ℕ
default_timeout_ms = 60000

abbrev pub poll_interval_ms : ℕ
poll_interval_ms = 50

abbrev pub locks_agent : String → LockRow → Bool
locks_agent name row = str_eq row.agent_name name

-- `DELETE FROM agent_locks WHERE expires_at < ?`
unfoldable pub delete_expired : Table → ℕ → Table
delete_expired table now = select (λ row. not (ltb row.expires_at now)) table

-- `INSERT OR IGNORE`, and the count of rows that it made.
unfoldable pub insert_lock : Table → LockRow → ℕ × Table
insert_lock table row =
    if is_some (find (locks_agent row.agent_name) table) then (0, table) else (1, table ++ row ∷ [])

-- One round of the loop in `lock`: the lock, the error with the holder's row, or another wait.
pub data Round : Type 0 where
  acquired : Table → Round
  timed_out : Option LockRow → Table → Round
  waiting : Table → Round

abbrev pub new_lock : String → String → ℕ → ℕ → LockRow
new_lock name lock_id duration now = record {
  agent_name = name;
  locked_by = lock_id;
  locked_at = now;
  expires_at = now + duration;
}

unfoldable pub after_insert : String → ℕ → ℕ → ℕ → ℕ × Table → Round
after_insert name start now timeout (changes, table) =
    if ltb 0 changes
    then acquired table
    else if ltb timeout (now - start)
    then timed_out (find (locks_agent name) table) table
    else waiting table

unfoldable pub poll : Table → String → String → ℕ → ℕ → ℕ → ℕ → Round
unfolding delete_expired insert_lock after_insert
poll table name lock_id duration timeout start now =
    after_insert name start now timeout
      (insert_lock (delete_expired table now) (new_lock name lock_id duration now))

pub data LockResult : Type 0 where
  locked : Table → LockResult
  timeout_error : Option LockRow → Table → LockResult

-- The loop of `lock` from its round `k` on: `clock k` is the reading of the clock in that round,
-- and `others k` what the rest of the program does to the table in the wait after it. `none` means
-- that the fuel ran out.
module _ (clock : ℕ → ℕ) (others : ℕ → Table → Table) (name lock_id : String)
    (duration timeout start : ℕ) where
  unfoldable pub lock_rounds : ℕ → ℕ → Table → Option LockResult
  lock_rounds zero k table = none
  lock_rounds (suc fuel) k table = elim (poll table name lock_id duration timeout start (clock k)) [
    | acquired t ↦ some (locked t)
    | timed_out holder t ↦ some (timeout_error holder t)
    | waiting t ↦ lock_rounds fuel (k + 1) (others k t)
  ]

-- `DELETE … WHERE agent_name = ? AND locked_by = ?`
abbrev pub held_by : String → String → LockRow → Bool
held_by name lock_id row = str_eq row.agent_name name && str_eq row.locked_by lock_id

unfoldable pub unlock : Table → String → String → Bool × Table
unlock table name lock_id = (
  ltb 0 (count (held_by name lock_id) table),
  select (λ row. not (held_by name lock_id row)) table,
)

unfoldable pub is_locked : Table → String → ℕ → Bool
is_locked table name now =
    is_some (find (λ row. locks_agent name row && leb now row.expires_at) table)

unfoldable pub force_unlock : Table → String → Table
force_unlock table name = select (λ row. not (locks_agent name row)) table

-- `withLock` once the lock is there: the body runs, and the lock is given back whether it returns
-- or throws.
unfoldable pub with_lock_held {ℓ} :
    {A : Type ℓ} → String → String → (Table → A × Table) → Table → A × Table
with_lock_held name lock_id body table =
    let (result, table') = body table in (result, (unlock table' name lock_id).1)
