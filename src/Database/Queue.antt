-- ===== src/Database/Queue.antt =====
-- The message queue of src/orchestrator/database.ts: the table `pending_messages`, in the order of
-- its rowids. Readings of the clock are milliseconds; the columns hold whole seconds, as the format
-- `%Y-%m-%dT%H:%M:%SZ` does. `julianday` differences are taken exactly.
pub mod Order
pub mod Rows
pub mod Fifo
pub mod Retries
pub mod Stale
use agentic_collab.Common.{
  ℕ, zero, suc, ◌+◌, ◌-◌, ◌*◌, ◌/◌, ◌^◌, String, Bool, true, false, not, ◌&&◌, ◌||◌, Option, none,
  some, List, [], ◌∷◌, ◌++◌, ◌==◌, leb, ltb, str_eq, if◌then◌else◌, is_some, find, update, count,
  select, any, min,
}
use mathlib.Core.List.{reverse}

pub data MessageStatus : Type 0 where
  pending delivered failed : MessageStatus

abbrev pub is_pending : MessageStatus → Bool
is_pending pending = true
is_pending delivered = false
is_pending failed = false

pub record PendingMessage : Type 0 where
  pub id : ℕ
  pub source_agent : Option String
  pub target_agent : String
  pub envelope : String
  pub status : MessageStatus
  pub retry_count : ℕ
  pub error : Option String
  pub last_attempt_at : Option ℕ
  pub next_attempt_at : Option ℕ
  pub created_at : ℕ
  pub delivered_at : Option ℕ

-- The table and the next value of its `AUTOINCREMENT` key.
pub record Queue : Type 0 where
  pub rows : List PendingMessage
  pub next_id : ℕ

-- `strftime('%Y-%m-%dT%H:%M:%SZ', 'now')`
abbrev pub stamp : ℕ → ℕ
stamp now = now / 1000

abbrev pub max_delivery_retries : ℕ
max_delivery_retries = 5

abbrev pub with_id : ℕ → PendingMessage → Bool
with_id id m = m.id == id

abbrev pub pending_for : String → PendingMessage → Bool
pending_for agent m = str_eq m.target_agent agent && is_pending m.status

-- `next_attempt_at IS NULL OR next_attempt_at <= now`
abbrev pub is_due : ℕ → Option ℕ → Bool
is_due now none = true
is_due now (some t) = leb t (stamp now)

unfoldable pub new_message : ℕ → Option String → String → String → ℕ → PendingMessage
new_message id source target envelope now = record {
  id = id;
  source_agent = source;
  target_agent = target;
  envelope = envelope;
  status = pending;
  retry_count = 0;
  error = none;
  last_attempt_at = none;
  next_attempt_at = none;
  created_at = stamp now;
  delivered_at = none;
}

unfoldable pub enqueue_message :
    Queue → Option String → String → String → ℕ → PendingMessage × Queue
unfolding new_message
enqueue_message q source target envelope now =
    let m = new_message q.next_id source target envelope now in
    (m, record { rows = q.rows ++ m ∷ []; next_id = q.next_id + 1 })

-- `SELECT DISTINCT target_agent … WHERE status = 'pending'`
unfoldable pub agents_with_pending : List PendingMessage → List String
agents_with_pending [] = []
agents_with_pending (m ∷ ms) =
    let rest = agents_with_pending ms in
    if is_pending m.status && not (any (λ a. str_eq a m.target_agent) rest)
    then m.target_agent ∷ rest
    else rest

abbrev pub is_deliverable : String → ℕ → PendingMessage → Bool
is_deliverable agent now m = pending_for agent m && is_due now m.next_attempt_at

unfoldable pub get_deliverable_messages : Queue → String → ℕ → List PendingMessage
get_deliverable_messages q agent now = select (is_deliverable agent now) q.rows

unfoldable pub has_pending_messages : Queue → String → Bool
has_pending_messages q agent = is_some (find (pending_for agent) q.rows)

unfoldable pub get_pending_message_by_id : Queue → ℕ → Option PendingMessage
get_pending_message_by_id q id = find (with_id id) q.rows

-- `UPDATE pending_messages SET f WHERE id = ?`
abbrev pub update_row : Queue → ℕ → (PendingMessage → PendingMessage) → Queue
update_row q id f = record q { rows = update (with_id id) f q.rows }

unfoldable pub start_attempt : ℕ → PendingMessage → PendingMessage
start_attempt now m = record m { last_attempt_at = some (stamp now) }

unfoldable pub mark_attempt_started : Queue → ℕ → ℕ → Queue
mark_attempt_started q id now = update_row q id (start_attempt now)

unfoldable pub deliver_row : ℕ → PendingMessage → PendingMessage
deliver_row now m = record m { status = delivered; delivered_at = some (stamp now) }

unfoldable pub mark_message_delivered : Queue → ℕ → ℕ → Queue
mark_message_delivered q id now = update_row q id (deliver_row now)

-- `30 * Math.pow(2, retryCount - 1)`; the count is at least 1.
unfoldable pub backoff_seconds : ℕ → ℕ
backoff_seconds retry_count = 30 * 2 ^ (retry_count - 1)

-- The row that is written after the attempt number `retry_count` failed.
unfoldable pub fail_row : ℕ → String → ℕ → ℕ → PendingMessage → PendingMessage
fail_row max_retries error retry_count now m =
    if leb max_retries retry_count
    then record m { status = failed; retry_count = retry_count; error = some error }
    else record m {
      retry_count = retry_count;
      error = some error;
      next_attempt_at = some (stamp now + backoff_seconds retry_count);
    }

unfoldable pub mark_attempt_failed : Queue → ℕ → String → ℕ → ℕ → Queue
mark_attempt_failed q id error max_retries now = elim (get_pending_message_by_id q id) [
  | none ↦ q
  | some row ↦ update_row q id (fail_row max_retries error (row.retry_count + 1) now)
]

-- `julianday('now') - julianday(last_attempt_at) > ? / 86400.0`
abbrev pub attempted_before : ℕ → ℕ → Option ℕ → Bool
attempted_before timeout now none = false
attempted_before timeout now (some t) = ltb (timeout * 1000) (now - t * 1000)

abbrev pub is_stale : ℕ → ℕ → PendingMessage → Bool
is_stale timeout now m =
    is_pending m.status
    && attempted_before timeout now m.last_attempt_at
    && not (is_some m.delivered_at)

unfoldable pub reset_row : ℕ → PendingMessage → PendingMessage
reset_row now m = record m {
  retry_count = m.retry_count + 1;
  error = some "Delivery attempt timed out";
  next_attempt_at = some (stamp now + 30);
}

-- The count of rows comes back beside the queue.
unfoldable pub reset_stale_attempts : Queue → ℕ → ℕ → ℕ × Queue
reset_stale_attempts q timeout now = (
  count (is_stale timeout now) q.rows,
  record q { rows = update (is_stale timeout now) (reset_row now) q.rows },
)

unfoldable pub cancel_row : PendingMessage → PendingMessage
cancel_row m = record m { status = failed; error = some "Withdrawn by sender" }

unfoldable pub cancel_pending_message : Queue → ℕ → Queue
cancel_pending_message q id = record q {
  rows = update (λ m. with_id id m && is_pending m.status) cancel_row q.rows;
}

-- Only what the dashboard queued is cleared.
unfoldable pub clear_pending_messages : Queue → String → Queue
clear_pending_messages q agent = record q {
  rows = select (λ m. not (pending_for agent m && not (is_some m.source_agent))) q.rows;
}
