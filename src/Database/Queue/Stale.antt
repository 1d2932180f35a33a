-- ===== src/Database/Queue/Stale.antt =====
-- Attempts that took too long (`resetStaleAttempts` of src/orchestrator/database.ts).
use agentic_collab.Common.{
  ap, ◌∙◌, refl, leb, String, ℕ, ◌+◌, ◌%◌, ◌≢◌, ◌≤◌, String, ◌≡◌, refl, true, false, none, some,
  List, [], ◌∷◌, if◌then◌else◌, update, select, All, arith, inl, inr, Bool-cases, find-update,
  map_option,
}
use agentic_collab.Database.Queue.{
  fail_row, backoff_seconds, pending, PendingMessage, Queue, with_id, get_pending_message_by_id,
  is_deliverable, get_deliverable_messages, is_stale, reset_row, reset_stale_attempts, stamp,
  is_due,
}

-- A row that was just reset is not due.
not_due_after_reset :
    (agent : String) (now : ℕ) (m : PendingMessage)
    → is_deliverable agent now (reset_row now m) ≡ false
unfolding reset_row
not_due_after_reset agent now m = ground arith

offered_not_stale :
    (timeout now : ℕ) (agent : String) (rows : List PendingMessage)
    → All
        (λ m. is_stale timeout now m ≡ false)
        (select (is_deliverable agent now) (update (is_stale timeout now) (reset_row now) rows))
offered_not_stale timeout now agent [] = tt
offered_not_stale timeout now agent (m ∷ rows) = elim (Bool-cases (is_stale timeout now m)) [
  | inl t ↦ rw t (rw (not_due_after_reset agent now m) (offered_not_stale timeout now agent rows))
  | inr t ↦ rw t (elim (Bool-cases (is_deliverable agent now m)) [
    | inl d ↦ rw d (t, offered_not_stale timeout now agent rows)
    | inr d ↦ rw d (offered_not_stale timeout now agent rows)
  ])
]

-- Right after stale attempts are reset, no message is offered whose last attempt was longer than
-- the timeout ago: such a message waits, also if its backoff had run out.
pub deliverable-reset :
    (q : Queue) (timeout now : ℕ) (agent : String)
    → All
        (λ m. is_stale timeout now m ≡ false)
        (get_deliverable_messages (reset_stale_attempts q timeout now).1 agent now)
unfolding get_deliverable_messages reset_stale_attempts
deliverable-reset q timeout now agent = offered_not_stale timeout now agent q.rows

-- Being stale lasts: the reset leaves the time of the last attempt as it was.
pub stale-reset_row :
    (timeout now later : ℕ) (m : PendingMessage)
    → is_stale timeout now m ≡ true
    → now ≤ later
    → is_stale timeout later (reset_row later m) ≡ true
unfolding reset_row
stale-reset_row timeout now later m h l = ground arith

pub stale_later :
    (timeout now later : ℕ) (m : PendingMessage)
    → is_stale timeout now m ≡ true
    → now ≤ later
    → is_stale timeout later m ≡ true
stale_later timeout now later m h l = ground arith

pub get-reset :
    (q : Queue) (timeout now id : ℕ)
    → get_pending_message_by_id (reset_stale_attempts q timeout now).1 id
      ≡ map_option
          (λ m. if is_stale timeout now m then reset_row now m else m)
          (get_pending_message_by_id q id)
unfolding get_pending_message_by_id reset_stale_attempts reset_row
get-reset q timeout now id =
    find-update (with_id id) (is_stale timeout now) (reset_row now) (λ m. refl) q.rows

second_failure :
    (m : PendingMessage) (max_retries : ℕ) (error : String) (failed : ℕ)
    → leb max_retries 2 ≡ false
    → fail_row max_retries error 2 failed m
      ≡ record m { retry_count = 2; error = some error; next_attempt_at = some (stamp failed + 60) }
unfolding fail_row backoff_seconds
second_failure m max_retries error failed u = rw u refl

backed_off :
    (m : PendingMessage) (started failed now : ℕ)
    → m.status ≡ pending
    → m.delivered_at ≡ none
    → m.last_attempt_at ≡ some (stamp started)
    → m.next_attempt_at ≡ some (stamp failed + 60)
    → started ≤ failed
    → is_due now m.next_attempt_at ≡ true
    → now % 1000 ≢ 0
    → is_stale 60 now m ≡ true
backed_off m started failed now p d l n o due off = ground (arith, d, l, n)

-- A message whose second attempt fails, where it has retries left, is stale by the time its backoff
-- has run out, unless the clock stands at the very first moment of that second.
pub second_backoff_stale :
    (m m' : PendingMessage) (max_retries : ℕ) (error : String) (started failed now : ℕ)
    → m.status ≡ pending
    → m.delivered_at ≡ none
    → m.last_attempt_at ≡ some (stamp started)
    → m.retry_count ≡ 1
    → leb max_retries 2 ≡ false
    → m' ≡ fail_row max_retries error (m.retry_count + 1) failed m
    → started ≤ failed
    → is_due now m'.next_attempt_at ≡ true
    → now % 1000 ≢ 0
    → is_stale 60 now m' ≡ true
second_backoff_stale m m' max_retries error started failed now p d l r u e o due off =
    backed_off m' started failed now (ap (λ (x : PendingMessage). x.status) row ∙ p)
      (ap (λ (x : PendingMessage). x.delivered_at) row ∙ d)
      (ap (λ (x : PendingMessage). x.last_attempt_at) row ∙ l)
      (ap (λ (x : PendingMessage). x.next_attempt_at) row) o due off
  where
    row : m' ≡ record m {
      retry_count = 2;
      error = some error;
      next_attempt_at = some (stamp failed + 60);
    }
    row =
        e
        ∙ ap (λ n. fail_row max_retries error (n + 1) failed m) r
        ∙ second_failure m max_retries error failed u
