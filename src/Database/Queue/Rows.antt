-- ===== src/Database/Queue/Rows.antt =====
-- What a query by id finds after an update by id in the queue (src/orchestrator/database.ts).
use agentic_collab.Common.{
  ℕ, ◌+◌, String, ◌≡◌, refl, some, List, [], ◌∷◌, ◌==◌, if◌then◌else◌, find, update, arith,
  map_option,
}
use agentic_collab.Database.Queue.{
  PendingMessage, Queue, with_id, get_pending_message_by_id, fail_row, mark_attempt_failed,
  update_row, start_attempt, mark_attempt_started, deliver_row, mark_message_delivered,
}

module _ (f : PendingMessage → PendingMessage) (keep : (m : PendingMessage) → (f m).id ≡ m.id) where
  find-update_row :
      (id j : ℕ) (rows : List PendingMessage)
      → find (with_id j) (update (with_id id) f rows)
        ≡ (if id == j then map_option f (find (with_id j) rows) else find (with_id j) rows)
  find-update_row id j [] = ground arith
  find-update_row id j (m ∷ rows) = ground (arith, keep m, find-update_row id j rows)

  pub get-update_row :
      (q : Queue) (id j : ℕ)
      → get_pending_message_by_id (update_row q id f) j ≡ (
          if id == j
          then map_option f (get_pending_message_by_id q j)
          else get_pending_message_by_id q j)
  unfolding get_pending_message_by_id
  get-update_row q id j = find-update_row id j q.rows

pub id-fail_row :
    (max_retries : ℕ) (error : String) (n now : ℕ) (m : PendingMessage)
    → (fail_row max_retries error n now m).id ≡ m.id
unfolding fail_row
id-fail_row max_retries error n now m = ground arith

pub get-mark_attempt_started :
    (q : Queue) (id now j : ℕ)
    → get_pending_message_by_id (mark_attempt_started q id now) j ≡ (
        if id == j
        then map_option (start_attempt now) (get_pending_message_by_id q j)
        else get_pending_message_by_id q j)
unfolding mark_attempt_started start_attempt
get-mark_attempt_started q id now j = get-update_row (start_attempt now) (λ m. refl) q id j

pub get-mark_message_delivered :
    (q : Queue) (id now j : ℕ)
    → get_pending_message_by_id (mark_message_delivered q id now) j ≡ (
        if id == j
        then map_option (deliver_row now) (get_pending_message_by_id q j)
        else get_pending_message_by_id q j)
unfolding mark_message_delivered deliver_row
get-mark_message_delivered q id now j = get-update_row (deliver_row now) (λ m. refl) q id j

-- The row of a failed attempt is written, and no other row changes.
pub get-mark_attempt_failed :
    (q : Queue) (id : ℕ) (error : String) (max_retries now : ℕ) (m : PendingMessage)
    → get_pending_message_by_id q id ≡ some m
    → (j : ℕ)
    → get_pending_message_by_id (mark_attempt_failed q id error max_retries now) j ≡ (
        if id == j
        then some (fail_row max_retries error (m.retry_count + 1) now m)
        else get_pending_message_by_id q j)
unfolding mark_attempt_failed
get-mark_attempt_failed q id error max_retries now m h j =
    rw (h, mark_attempt_failed)
      (rw
        (get-update_row (fail_row max_retries error (m.retry_count + 1) now)
          (id-fail_row max_retries error (m.retry_count + 1) now) q id j)
        (ground (arith, h)))
