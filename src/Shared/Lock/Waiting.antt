-- ===== src/Shared/Lock/Waiting.antt =====
-- The wait for a lock ends (the loop of `lock` in src/shared/lock.ts).
use agentic_collab.Common.{
  ℕ, zero, suc, ◌+◌, ◌-◌, ◌*◌, ◌/◌, ◌≤◌, ◌<◌, String, ◌≡◌, ◌≢◌, refl, sym, none_ne_some, none,
  arith,
}
use agentic_collab.Shared.Lock.{
  Table, delete_expired, insert_lock, new_lock, Round, acquired, timed_out, waiting, after_insert,
  poll, lock_rounds, poll_interval_ms,
}

-- A round that waits again comes before the timeout.
waiting_in_time :
    (name : String) (start now timeout : ℕ) (r : ℕ × Table) (t : Table)
    → after_insert name start now timeout r ≡ waiting t
    → now - start ≤ timeout
unfolding after_insert
waiting_in_time name start now timeout (c, t') t h = ground arith

poll_waiting :
    (t : Table) (name lock_id : String) (duration timeout start now : ℕ) (t' : Table)
    → poll t name lock_id duration timeout start now ≡ waiting t'
    → now - start ≤ timeout
unfolding poll
poll_waiting t name lock_id duration timeout start now t' h =
    waiting_in_time name start now timeout
      (insert_lock (delete_expired t now) (new_lock name lock_id duration now)) t' h

module _ (clock : ℕ → ℕ) (others : ℕ → Table → Table) (name lock_id : String)
    (duration timeout start : ℕ) (ticks : (k : ℕ) → start + k * poll_interval_ms ≤ clock k) where
  lock_rounds_total :
      (fuel k : ℕ) (t : Table)
      → k * poll_interval_ms ≤ timeout + poll_interval_ms
      → timeout + poll_interval_ms < (fuel + k) * poll_interval_ms
      → lock_rounds clock others name lock_id duration timeout start fuel k t ≢ none
  unfolding lock_rounds
  lock_rounds_total zero k t late h e = absurd (omega arith)
  lock_rounds_total (suc fuel) k t late h e =
      go (lock_rounds_total fuel (k + 1)) (poll t name lock_id duration timeout start (clock k))
        refl
    where
      go :
          ((t' : Table)
            → (k + 1) * poll_interval_ms ≤ timeout + poll_interval_ms
            → timeout + poll_interval_ms < (fuel + (k + 1)) * poll_interval_ms
            → lock_rounds clock others name lock_id duration timeout start fuel (k + 1) t' ≢ none)
          → (r : Round) → poll t name lock_id duration timeout start (clock k) ≡ r
          → ⊥
      go ih (acquired t') p = none_ne_some (sym (rw (p, lock_rounds) at e))
      go ih (timed_out holder t') p = none_ne_some (sym (rw (p, lock_rounds) at e))
      go ih (waiting t') p =
          let early = poll_waiting t name lock_id duration timeout start (clock k) t' p in
          ih (others k t') (omega (arith, early, ticks k)) (omega arith) (rw (p, lock_rounds) at e)

-- If the clock moves on by the poll interval in each round, at least, the wait for a lock ends: in
-- `timeout / 50 + 2` rounds it has the lock or the timeout error, whatever others do meanwhile.
pub lock_ends :
    (clock : ℕ → ℕ) (others : ℕ → Table → Table) (name lock_id : String)
    (duration timeout start : ℕ) (t : Table)
    → ((k : ℕ) → start + k * poll_interval_ms ≤ clock k)
    → lock_rounds clock others name lock_id duration timeout start (timeout / 50 + 2) 0 t ≢ none
lock_ends clock others name lock_id duration timeout start t ticks =
    lock_rounds_total clock others name lock_id duration timeout start ticks (timeout / 50 + 2) 0 t
      (omega arith) (omega arith)
