-- ===== src/Database/Queue/Order.antt =====
-- The keys and the order of the message queue (src/orchestrator/database.ts).
use agentic_collab.Common.{
  ℕ, ◌+◌, ◌≤◌, String, ◌≡◌, refl, Bool, not, ◌&&◌, Option, none, some, List, [], ◌∷◌, ◌++◌, is_some,
  update, select, arith, inl, inr, Bool-cases,
}
use agentic_collab.Database.Queue.{
  PendingMessage, Queue, with_id, pending_for, is_pending, enqueue_message,
  get_pending_message_by_id, start_attempt, mark_attempt_started, deliver_row,
  mark_message_delivered, fail_row, mark_attempt_failed, is_stale, reset_row, reset_stale_attempts,
  cancel_row, cancel_pending_message, clear_pending_messages,
}

-- The ids ascend from `lo` and stay below `hi`.
abbrev pub IsIndexed : ℕ → List PendingMessage → ℕ → Type 0
IsIndexed lo [] hi = lo ≤ hi
IsIndexed lo (m ∷ ms) hi = (lo ≤ m.id) × IsIndexed (m.id + 1) ms hi

abbrev pub IsWellIndexed : Queue → Type 0
IsWellIndexed q = IsIndexed 0 q.rows q.next_id

IsIndexed-le :
    (lo lo' hi : ℕ) (ms : List PendingMessage) → lo' ≤ lo → IsIndexed lo ms hi → IsIndexed lo' ms hi
IsIndexed-le lo lo' hi [] l h = omega arith
IsIndexed-le lo lo' hi (m ∷ ms) l (a, h) = (omega arith, h)

IsIndexed-append :
    (lo hi : ℕ) (ms : List PendingMessage) (m : PendingMessage)
    → m.id ≡ hi
    → IsIndexed lo ms hi
    → IsIndexed lo (ms ++ m ∷ []) (hi + 1)
IsIndexed-append lo hi [] m e h = (omega arith, omega arith)
IsIndexed-append lo hi (x ∷ ms) m e (a, h) = (a, IsIndexed-append (x.id + 1) hi ms m e h)

IsIndexed-update :
    (p : PendingMessage → Bool) (f : PendingMessage → PendingMessage)
    → ((m : PendingMessage) → (f m).id ≡ m.id)
    → (lo hi : ℕ) (ms : List PendingMessage) → IsIndexed lo ms hi
    → IsIndexed lo (update p f ms) hi
IsIndexed-update p f keep lo hi [] h = h
IsIndexed-update p f keep lo hi (m ∷ ms) (a, h) = elim (Bool-cases (p m)) [
  | inl t ↦ rw t (rw (keep m) (a, IsIndexed-update p f keep (m.id + 1) hi ms h))
  | inr t ↦ rw t (a, IsIndexed-update p f keep (m.id + 1) hi ms h)
]

IsIndexed-select :
    (p : PendingMessage → Bool) (lo hi : ℕ) (ms : List PendingMessage)
    → IsIndexed lo ms hi
    → IsIndexed lo (select p ms) hi
IsIndexed-select p lo hi [] h = h
IsIndexed-select p lo hi (m ∷ ms) (a, h) = elim (Bool-cases (p m)) [
  | inl t ↦ rw t (a, IsIndexed-select p (m.id + 1) hi ms h)
  | inr t ↦ rw t (
      IsIndexed-le (m.id + 1) lo hi (select p ms) (omega arith)
        (IsIndexed-select p (m.id + 1) hi ms h))
]

-- What the dispatcher and the routes do to the queue, with the reading of the clock.
pub data QueueOp : Type 0 where
  enqueue : Option String → String → String → ℕ → QueueOp
  start deliver : ℕ → ℕ → QueueOp
  fail : ℕ → String → ℕ → ℕ → QueueOp
  reset : ℕ → ℕ → QueueOp
  cancel : ℕ → QueueOp
  clear : String → QueueOp

pub run_queue_op : Queue → QueueOp → Queue
run_queue_op q (enqueue source target envelope now) =
    (enqueue_message q source target envelope now).1
run_queue_op q (start id now) = mark_attempt_started q id now
run_queue_op q (deliver id now) = mark_message_delivered q id now
run_queue_op q (fail id error max_retries now) = mark_attempt_failed q id error max_retries now
run_queue_op q (reset timeout now) = (reset_stale_attempts q timeout now).1
run_queue_op q (cancel id) = cancel_pending_message q id
run_queue_op q (clear agent) = clear_pending_messages q agent

pub run_queue_ops : Queue → List QueueOp → Queue
run_queue_ops q [] = q
run_queue_ops q (op ∷ ops) = run_queue_ops (run_queue_op q op) ops

id-fail_row :
    (max_retries : ℕ) (error : String) (n now : ℕ) (m : PendingMessage)
    → (fail_row max_retries error n now m).id ≡ m.id
unfolding fail_row
id-fail_row max_retries error n now m = ground arith

fail-IsWellIndexed :
    (q : Queue) (id : ℕ) (error : String) (max_retries now : ℕ)
    → IsWellIndexed q
    → IsWellIndexed (mark_attempt_failed q id error max_retries now)
unfolding mark_attempt_failed
fail-IsWellIndexed q id error max_retries now h = go (get_pending_message_by_id q id) refl
  where
    go :
        (o : Option PendingMessage)
        → get_pending_message_by_id q id ≡ o
        → IsWellIndexed (mark_attempt_failed q id error max_retries now)
    go none e = rw (e, mark_attempt_failed) h
    go (some row) e =
        rw (e, mark_attempt_failed)
          (IsIndexed-update (with_id id) _ (id-fail_row max_retries error (row.retry_count + 1) now)
            0 q.next_id q.rows h)

run_queue_op-IsWellIndexed :
    (q : Queue) (op : QueueOp) → IsWellIndexed q → IsWellIndexed (run_queue_op q op)
unfolding run_queue_op
run_queue_op-IsWellIndexed q (enqueue source target envelope now) h =
    unfold enqueue_message in IsIndexed-append 0 q.next_id q.rows _ refl h
run_queue_op-IsWellIndexed q (start id now) h =
    unfold mark_attempt_started start_attempt in
    IsIndexed-update (with_id id) (start_attempt now) (λ m. refl) 0 q.next_id q.rows h
run_queue_op-IsWellIndexed q (deliver id now) h =
    unfold mark_message_delivered deliver_row in
    IsIndexed-update (with_id id) (deliver_row now) (λ m. refl) 0 q.next_id q.rows h
run_queue_op-IsWellIndexed q (fail id error max_retries now) h =
    fail-IsWellIndexed q id error max_retries now h
run_queue_op-IsWellIndexed q (reset timeout now) h =
    unfold reset_stale_attempts reset_row in
    IsIndexed-update (is_stale timeout now) (reset_row now) (λ m. refl) 0 q.next_id q.rows h
run_queue_op-IsWellIndexed q (cancel id) h =
    unfold cancel_pending_message cancel_row in
    IsIndexed-update (λ m. with_id id m && is_pending m.status) cancel_row (λ m. refl) 0 q.next_id
      q.rows h
run_queue_op-IsWellIndexed q (clear agent) h =
    unfold clear_pending_messages in
    IsIndexed-select (λ m. not (pending_for agent m && not (is_some m.source_agent))) 0 q.next_id
      q.rows h

-- Whatever is done to the queue, the ids ascend in the table and the next id is larger than all.
pub run_queue_ops-IsWellIndexed :
    (q : Queue) (ops : List QueueOp) → IsWellIndexed q → IsWellIndexed (run_queue_ops q ops)
unfolding run_queue_ops
run_queue_ops-IsWellIndexed q [] h = h
run_queue_ops-IsWellIndexed q (op ∷ ops) h =
    run_queue_ops-IsWellIndexed (run_queue_op q op) ops (run_queue_op-IsWellIndexed q op h)
