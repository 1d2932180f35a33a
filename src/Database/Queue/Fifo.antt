-- ===== src/Database/Queue/Fifo.antt =====
-- First in, first out: what the queue of src/orchestrator/database.ts offers for delivery.
use agentic_collab.Common.{
  ℕ, ◌+◌, ◌≤◌, String, ◌≡◌, ap, Bool, true, Option, List, [], ◌∷◌, ◌++◌, str_eq, if◌then◌else◌,
  select, arith, inl, inr, Bool-cases, eq_iff, ◌∙◌, All, subst, false_ne_true,
}
use agentic_collab.Database.Queue.{
  pending, PendingMessage, Queue, is_due, enqueue_message, is_deliverable, get_deliverable_messages,
}
use agentic_collab.Database.Queue.Order.{IsIndexed, IsWellIndexed}

select-append :
    (p : PendingMessage → Bool) (ms : List PendingMessage) (m : PendingMessage)
    → select p (ms ++ m ∷ []) ≡ select p ms ++ (if p m then m ∷ [] else [])
select-append p [] m = ground arith
select-append p (x ∷ ms) m = ground (arith, select-append p ms m)

-- A new message is offered to its target alone, at once, and behind all that was offered before.
pub deliverable-enqueue :
    (q : Queue) (source : Option String) (target envelope : String) (t : ℕ) (agent : String)
    (now : ℕ)
    → get_deliverable_messages (enqueue_message q source target envelope t).1 agent now
      ≡ get_deliverable_messages q agent now
        ++ (if str_eq target agent then (enqueue_message q source target envelope t).0 ∷ [] else [])
unfolding get_deliverable_messages enqueue_message
deliverable-enqueue q source target envelope t agent now =
    select-append (is_deliverable agent now) q.rows _ ∙ (ground arith)

-- The row is pending for the agent and its backoff has run out.
pub record IsOffered (agent : String) (now : ℕ) (m : PendingMessage) : Type 0 where
  pub target : m.target_agent ≡ agent
  pub status : m.status ≡ pending
  pub due : is_due now m.next_attempt_at ≡ true

All-le :
    (P : PendingMessage → Type 0) (b lo hi : ℕ) (ms : List PendingMessage)
    → b ≤ lo
    → IsIndexed lo ms hi
    → All (λ x. P x → b ≤ x.id) ms
All-le P b lo hi [] l h = tt
All-le P b lo hi (m ∷ ms) l (a, h) =
    ((λ _. omega arith), All-le P b (m.id + 1) hi ms (omega arith) h)

cons_head : {m x : PendingMessage} {ms xs : List PendingMessage} → m ∷ ms ≡ x ∷ xs → m ≡ x
cons_head {m} h = ap (λ l. elim l [ [] ↦ m | y ∷ ys ↦ y ]) h

head_first :
    (p : PendingMessage → Bool) (lo hi : ℕ) (ms rest : List PendingMessage) (m : PendingMessage)
    → IsIndexed lo ms hi
    → select p ms ≡ m ∷ rest
    → (p m ≡ true) × All (λ x. p x ≡ true → m.id ≤ x.id) ms
head_first p lo hi [] rest m k h = cc
head_first p lo hi (y ∷ ms) rest m (a, k) h = elim (Bool-cases (p y)) [
  | inl t ↦
      let same : y ≡ m = cons_head (rw t at h) in
      subst (λ z. (p z ≡ true) × All (λ x. p x ≡ true → z.id ≤ x.id) (y ∷ ms)) same
        (t, ((λ _. omega arith), All-le (λ x. p x ≡ true) y.id (y.id + 1) hi ms (omega arith) k))
  | inr t ↦
      let (q, later) = head_first p (y.id + 1) hi ms rest m k (rw t at h) in
      (q, ((λ e. absurd (false_ne_true t e)), later))
]

offered :
    (agent : String) (now : ℕ) (m : PendingMessage)
    → is_deliverable agent now m ≡ true
    → IsOffered agent now m
offered agent now m h = record {
  target = (eq_iff m.target_agent agent).0 (ground arith);
  status = ground arith;
  due = ground arith;
}

-- The message that is offered first is pending for the agent with its backoff run out, and no such
-- message has a smaller id: it is the oldest.
pub deliverable_head :
    (q : Queue) (agent : String) (now : ℕ) (m : PendingMessage) (rest : List PendingMessage)
    → IsWellIndexed q
    → get_deliverable_messages q agent now ≡ m ∷ rest
    → IsOffered agent now m × All (λ x. is_deliverable agent now x ≡ true → m.id ≤ x.id) q.rows
unfolding get_deliverable_messages
deliverable_head q agent now m rest k h =
    let (p, least) = head_first (is_deliverable agent now) 0 q.next_id q.rows rest m k h in
    (offered agent now m p, least)
