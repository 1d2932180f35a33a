-- ===== src/Database/Queue/Retries.antt =====
-- Failed attempts and their backoff (`markAttemptFailed` of src/orchestrator/database.ts).
use agentic_collab.Common.{
  ℕ, zero, suc, ◌+◌, ◌*◌, ◌≤◌, ◌<◌, ◌^◌, String, ◌≡◌, refl, ap, ◌∙◌, some, List, [], ◌∷◌, ◌++◌,
  arith, ==_refl, length, subst,
}
use agentic_collab.Database.Queue.{
  pending, failed, PendingMessage, Queue, get_pending_message_by_id, backoff_seconds, fail_row,
  mark_attempt_failed, stamp, max_delivery_retries,
}
use agentic_collab.Database.Queue.Rows.{get-mark_attempt_failed}

-- The attempts of one message that fail at the given times.
pub fail_all : Queue → ℕ → String → List ℕ → Queue
fail_all q id error [] = q
fail_all q id error (now ∷ times) =
    fail_all (mark_attempt_failed q id error max_delivery_retries now) id error times

-- Still within its retries, the last failure at `now`.
record IsRetrying (m : PendingMessage) (n now : ℕ) : Type 0 where
  status : m.status ≡ pending
  retry_count : m.retry_count ≡ n
  next_attempt_at : m.next_attempt_at ≡ some (stamp now + backoff_seconds n)

fail_again :
    (m : PendingMessage) (error : String) (n now : ℕ)
    → m.status ≡ pending
    → n < max_delivery_retries
    → IsRetrying (fail_row max_delivery_retries error n now m) n now
unfolding fail_row
fail_again m error n now p h = record {
  status = ground arith;
  retry_count = ground arith;
  next_attempt_at = ground arith;
}

fail_last :
    (m : PendingMessage) (error : String) (n now : ℕ)
    → max_delivery_retries ≤ n
    → ((fail_row max_delivery_retries error n now m).status ≡ failed)
      × ((fail_row max_delivery_retries error n now m).retry_count ≡ n)
unfolding fail_row
fail_last m error n now h = (ground arith, ground arith)

backoff_at :
    (n : ℕ) → n < 4 → (backoff_seconds (n + 1) ≡ 30 * 2 ^ n) × (backoff_seconds (n + 1) ≤ 240)
unfolding backoff_seconds
backoff_at zero h = (refl, omega arith)
backoff_at (suc zero) h = (refl, omega arith)
backoff_at (suc (suc zero)) h = (refl, omega arith)
backoff_at (suc (suc (suc zero))) h = (refl, omega arith)
backoff_at (suc (suc (suc (suc n)))) h = absurd (omega arith)

fail_all-append :
    (q : Queue) (id : ℕ) (error : String) (times : List ℕ) (now : ℕ)
    → fail_all q id error (times ++ now ∷ [])
      ≡ mark_attempt_failed (fail_all q id error times) id error max_delivery_retries now
unfolding fail_all
fail_all-append q id error [] now = refl
fail_all-append q id error (t ∷ times) now =
    fail_all-append (mark_attempt_failed q id error max_delivery_retries t) id error times now

get_self :
    (q : Queue) (id : ℕ) (error : String) (now : ℕ) (m : PendingMessage)
    → get_pending_message_by_id q id ≡ some m
    → get_pending_message_by_id (mark_attempt_failed q id error max_delivery_retries now) id
      ≡ some (fail_row max_delivery_retries error (m.retry_count + 1) now m)
get_self q id error now m h =
    get-mark_attempt_failed q id error max_delivery_retries now m h id ∙ rw (==_refl id) refl

-- Fewer failures than retries leave the message pending.
fail_all_pending :
    (q : Queue) (id : ℕ) (error : String) (times : List ℕ) (m : PendingMessage)
    → get_pending_message_by_id q id ≡ some m
    → m.status ≡ pending
    → m.retry_count + length times < max_delivery_retries
    → (r : PendingMessage) × (get_pending_message_by_id (fail_all q id error times) id ≡ some r)
      × (r.status ≡ pending)
      × (r.retry_count ≡ m.retry_count + length times)
unfolding fail_all
fail_all_pending q id error [] m h p l = (m, h, p, omega arith)
fail_all_pending q id error (t ∷ times) m h p l =
    let f = fail_again m error (m.retry_count + 1) t p (omega arith) in
    let (r, found, status, count) =
      fail_all_pending (mark_attempt_failed q id error max_delivery_retries t) id error times
        (fail_row max_delivery_retries error (m.retry_count + 1) t m) (get_self q id error t m h)
        f.status (omega (arith, f.retry_count)) in
    (r, found, status, omega (arith, f.retry_count, count))

retry_count-fail_row :
    (m : PendingMessage) (error : String) (n now : ℕ)
    → (fail_row max_delivery_retries error n now m).retry_count ≡ n
unfolding fail_row
retry_count-fail_row m error n now = ground arith

-- The failure after `n` others.
abbrev Failure : PendingMessage → ℕ → ℕ → Type 0
Failure r n now =
    (r.retry_count ≡ n + 1)
    × (n < 4
        → (r.status ≡ pending)
          × (r.next_attempt_at ≡ some (stamp now + 30 * 2 ^ n))
          × (30 * 2 ^ n ≤ 240))
    × (n ≡ 4 → r.status ≡ failed)

fails_after :
    (b : PendingMessage) (error : String) (n now : ℕ)
    → b.status ≡ pending
    → Failure (fail_row max_delivery_retries error (n + 1) now b) n now
fails_after b error n now p = (
  retry_count-fail_row b error (n + 1) now,
  (λ k.
      let again = fail_again b error (n + 1) now p (omega arith) in
      let (delay, small) = backoff_at n k in
      (
        again.status,
        again.next_attempt_at ∙ ap (λ d. some (stamp now + d)) delay,
        rw delay at small,
      )),
  (λ k. (fail_last b error (n + 1) now (omega arith)).0),
)

-- A message that was never attempted and fails at `times` and then at `now`, five times at most in
-- all, has that many retries; before the fifth failure it is pending and its next attempt is
-- 30, 60, 120 or 240 seconds after the last one, and the fifth failure makes it `failed`.
pub retry_schedule :
    (q : Queue) (id : ℕ) (error : String) (times : List ℕ) (now : ℕ) (m : PendingMessage)
    → get_pending_message_by_id q id ≡ some m
    → m.status ≡ pending
    → m.retry_count ≡ 0
    → length times ≤ 4
    → (r : PendingMessage) × (get_pending_message_by_id (fail_all q id error (times ++ now ∷ [])) id
        ≡ some r)
      × ((r.retry_count ≡ length times + 1)
          × (length times < 4
              → (r.status ≡ pending)
                × (r.next_attempt_at ≡ some (stamp now + 30 * 2 ^ length times))
                × (30 * 2 ^ length times ≤ 240))
          × (length times ≡ 4 → r.status ≡ failed))
retry_schedule q id error times now m h p z l =
    let (b, found, status, count) = fail_all_pending q id error times m h p (omega (arith, z)) in
    let n : b.retry_count ≡ length times = omega (arith, z, count) in
    (
      fail_row max_delivery_retries error (b.retry_count + 1) now b,
      rw fail_all-append (get_self (fail_all q id error times) id error now b found),
      subst (λ k. Failure (fail_row max_delivery_retries error (b.retry_count + 1) now b) k now) n
          (fails_after b error b.retry_count now status),
    )
