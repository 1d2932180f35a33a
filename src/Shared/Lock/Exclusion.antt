-- ===== src/Shared/Lock/Exclusion.antt =====
-- Mutual exclusion by the locks of src/shared/lock.ts.
use agentic_collab.Common.{
  ◌⊎◌, ◌∙◌, ℕ, ◌≤◌, String, ◌≡◌, ◌≢◌, refl, Bool, true, false, not, ◌&&◌, some, List, [], ◌∷◌, ◌++◌,
  ltb, leb, eq_iff, is_some, find, select, arith, inl, inr, Bool-cases, All,
}
use agentic_collab.Shared.Lock.{
  LockRow, Table, locks_agent, delete_expired, insert_lock, Round, acquired, timed_out, waiting,
  after_insert, poll, held_by, unlock, is_locked, new_lock,
}

-- The row of an agent survives a deletion that does not mean it.
find-select :
    (p q : LockRow → Bool) (table : Table) (row : LockRow)
    → find p table ≡ some row
    → q row ≡ true
    → find p (select q table) ≡ some row
find-select p q [] row h k = cc
find-select p q (x ∷ table) row h k = ground (arith, find-select p q table row)

find-append_ne :
    (p : LockRow → Bool) (table : Table) (x row : LockRow)
    → find p table ≡ some row
    → find p (table ++ x ∷ []) ≡ some row
find-append_ne p [] x row h = cc
find-append_ne p (y ∷ table) x row h = ground (arith, find-append_ne p table x row)

table_of : Round → Table
table_of (acquired t) = t
table_of (timed_out holder t) = t
table_of (waiting t) = t

-- What any part of the program may do to the locks, but for a forced unlock.
pub data LockOp : Type 0 where
  try : (name lock_id : String) (duration timeout start now : ℕ) → LockOp
  release : (name lock_id : String) → LockOp

pub run_lock_op : Table → LockOp → Table
unfolding table_of
run_lock_op t (try name lock_id duration timeout start now) =
    table_of (poll t name lock_id duration timeout start now)
run_lock_op t (release name lock_id) = (unlock t name lock_id).1

pub run_lock_ops : Table → List LockOp → Table
run_lock_ops t [] = t
run_lock_ops t (op ∷ ops) = run_lock_ops (run_lock_op t op) ops

-- The operation comes no later than the row expires, and is not its holder's release.
abbrev pub RespectsRow : LockRow → LockOp → Type 0
RespectsRow row (try name lock_id duration timeout start now) = now ≤ row.expires_at
RespectsRow row (release name lock_id) = (name ≢ row.agent_name) ⊎ (lock_id ≢ row.locked_by)

table_of-after_insert :
    (name : String) (start now timeout : ℕ) (r : ℕ × Table)
    → table_of (after_insert name start now timeout r) ≡ r.1
unfolding after_insert table_of
table_of-after_insert name start now timeout (c, t) = ground arith

find-insert :
    (p : LockRow → Bool) (t : Table) (x row : LockRow)
    → find p t ≡ some row
    → find p (insert_lock t x).1 ≡ some row
unfolding insert_lock
find-insert p t x row h = elim (Bool-cases (is_some (find (locks_agent x.agent_name) t))) [
  | inl e ↦ rw e h
  | inr e ↦ rw e (find-append_ne p t x row h)
]

poll_keeps :
    (t : Table) (row : LockRow) (name n lock_id : String) (duration timeout start now : ℕ)
    → find (locks_agent n) t ≡ some row
    → now ≤ row.expires_at
    → find (locks_agent n) (table_of (poll t name lock_id duration timeout start now)) ≡ some row
unfolding poll
poll_keeps t row name n lock_id duration timeout start now h l = rw table_of-after_insert (
    find-insert (locks_agent n) (delete_expired t now) _ row (
      unfold delete_expired in
      find-select (locks_agent n) (λ r. not (ltb r.expires_at now)) t row h (ground arith)))

not_held :
    (name lock_id : String) (row : LockRow)
    → (name ≢ row.agent_name) ⊎ (lock_id ≢ row.locked_by)
    → not (held_by name lock_id row) ≡ true
not_held name lock_id row d =
    ground (arith, eq_iff row.agent_name name, eq_iff row.locked_by lock_id)

run_lock_op_keeps :
    (t : Table) (op : LockOp) (row : LockRow) (n : String)
    → find (locks_agent n) t ≡ some row
    → RespectsRow row op
    → find (locks_agent n) (run_lock_op t op) ≡ some row
unfolding run_lock_op
run_lock_op_keeps t (try name lock_id duration timeout start now) row n h l =
    poll_keeps t row name n lock_id duration timeout start now h l
run_lock_op_keeps t (release name lock_id) row n h d =
    unfold unlock in
    find-select (locks_agent n) (λ r. not (held_by name lock_id r)) t row h
      (not_held name lock_id row d)

-- A lock that is held stays held: until it expires, and as long as its holder does not release it,
-- no sequence of attempts and releases by anyone takes its row away or changes it.
pub run_lock_ops_keeps :
    (t : Table) (ops : List LockOp) (row : LockRow) (n : String)
    → find (locks_agent n) t ≡ some row
    → All (RespectsRow row) ops
    → find (locks_agent n) (run_lock_ops t ops) ≡ some row
unfolding run_lock_ops
run_lock_ops_keeps t [] row n h l = h
run_lock_ops_keeps t (op ∷ ops) row n h (l, ls) =
    run_lock_ops_keeps (run_lock_op t op) ops row n (run_lock_op_keeps t op row n h l) ls

abbrev pub live : String → ℕ → LockRow → Bool
live name now row = locks_agent name row && leb now row.expires_at

find-delete_expired :
    (name : String) (t : Table) (now : ℕ)
    → is_some (find (locks_agent name) (delete_expired t now)) ≡ is_some (find (live name now) t)
unfolding delete_expired
find-delete_expired name [] now = refl
find-delete_expired name (x ∷ t) now = ground (arith, find-delete_expired name t now)

not_inserted :
    (name : String) (start now timeout : ℕ) (t t' : Table)
    → after_insert name start now timeout (0, t) ≢ acquired t'
unfolding after_insert
not_inserted name start now timeout t t' e = ground arith

-- A round of the wait for a lock takes it exactly when no unexpired lock on the agent is there; it
-- then leaves the unexpired locks and, behind them, the new one.
pub poll_cases :
    (t : Table) (name lock_id : String) (duration timeout start now : ℕ)
    → (is_locked t name now ≡ false
        → poll t name lock_id duration timeout start now
          ≡ acquired (delete_expired t now ++ new_lock name lock_id duration now ∷ []))
      × (is_locked t name now ≡ true
          → (t' : Table) → poll t name lock_id duration timeout start now ≢ acquired t')
unfolding poll insert_lock after_insert is_locked
poll_cases t name lock_id duration timeout start now =
    let seen = find-delete_expired name t now in
    (
      (λ free. rw (seen ∙ free) refl),
      (λ taken t' e. not_inserted name start now timeout _ t' (rw (seen ∙ taken) at e)),
    )
