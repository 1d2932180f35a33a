-- ===== src/Tests/Database.antt =====
-- The tables of src/orchestrator/database.ts at concrete inputs.
use agentic_collab.Common.{
  ℕ, ◌+◌, ◌*◌, ◌^◌, ◌≤◌, ◌<◌, ◌≡◌, refl, true, false, none, some, List, [], ◌∷◌, ◌++◌, arith, All,
}
use agentic_collab.Shared.Agent.{AgentRecord, idle, suspending}
use agentic_collab.Database.Agents.{
  ok, err, version_conflict, no_extra, update_agent_state, set_state, get_agent, write_state,
}
use agentic_collab.Database.Agents.Versions.{
  IsUpdate, update_agent_state-IsUpdate, update_agent_state_twice,
}
use agentic_collab.Database.Queue.{
  fail_row, is_due, backoff_seconds, pending, failed, PendingMessage, Queue,
  get_deliverable_messages, is_deliverable, get_pending_message_by_id, reset_stale_attempts,
  is_stale, stamp,
}
use agentic_collab.Database.Queue.Order.{IsWellIndexed}
use agentic_collab.Database.Queue.Fifo.{IsOffered, deliverable_head}
use agentic_collab.Database.Queue.Retries.{fail_all, retry_schedule}
use agentic_collab.Database.Queue.Stale.{deliverable-reset, second_backoff_stale}
use agentic_collab.Tests.Shared.{bob}

abbrev ann : AgentRecord
ann = record bob { name = "ann"; version = 3 }

abbrev both : List AgentRecord
both = ann ∷ bob ∷ []

abbrev after : List AgentRecord
after = ann ∷ set_state idle no_extra bob ∷ []

idle_written :
    update_agent_state both "bob" idle 7 no_extra ≡ ok (set_state idle no_extra bob, after)
unfolding update_agent_state get_agent write_state set_state
idle_written = refl

update_agent_state-IsUpdate_example :
    IsUpdate both after "bob" idle 7 no_extra (set_state idle no_extra bob)
update_agent_state-IsUpdate_example =
    update_agent_state-IsUpdate both after "bob" idle 7 no_extra (set_state idle no_extra bob)
      idle_written

update_agent_state_twice_example :
    update_agent_state after "bob" suspending 7 no_extra ≡ err (version_conflict 7 8)
update_agent_state_twice_example =
    update_agent_state_twice both after "bob" idle suspending 7 no_extra no_extra
      (set_state idle no_extra bob) idle_written

abbrev message : PendingMessage
message = record {
  id = 4;
  source_agent = some "ann";
  target_agent = "bob";
  envelope = "hello";
  status = pending;
  retry_count = 0;
  error = none;
  last_attempt_at = none;
  next_attempt_at = none;
  created_at = 1000;
  delivered_at = none;
}

abbrev later : PendingMessage
later = record message { id = 6; envelope = "again" }

abbrev queue : Queue
queue = record { rows = message ∷ later ∷ []; next_id = 7 }

queue-IsWellIndexed : IsWellIndexed queue
queue-IsWellIndexed = ground arith

deliverable_head_example :
    IsOffered "bob" 9000 message
    × All (λ x. is_deliverable "bob" 9000 x ≡ true → message.id ≤ x.id) queue.rows
deliverable_head_example =
    deliverable_head queue "bob" 9000 message (later ∷ []) queue-IsWellIndexed
      (unfold get_deliverable_messages in refl)

abbrev two : ℕ
two = 2

retry_schedule_example :
    (r : PendingMessage) × (get_pending_message_by_id
        (fail_all queue 4 "gone" ((2000 ∷ 40000 ∷ []) ++ 110000 ∷ []))
        4
      ≡ some r)
    × ((r.retry_count ≡ 3)
        × (2 < 4
            → (r.status ≡ pending)
              × (r.next_attempt_at ≡ some (stamp 110000 + 30 * 2 ^ 2))
              × (30 * 2 ^ 2 ≤ 240))
        × (two ≡ 4 → r.status ≡ failed))
retry_schedule_example =
    retry_schedule queue 4 "gone" (2000 ∷ 40000 ∷ []) 110000 message
      (unfold get_pending_message_by_id in refl) refl refl (omega arith)

deliverable-reset_example :
    All
      (λ m. is_stale 60 99000 m ≡ false)
      (get_deliverable_messages (reset_stale_attempts queue 60 99000).1 "bob" 99000)
deliverable-reset_example = deliverable-reset queue 60 99000 "bob"

-- Its first attempt failed, and its second one is under way.
abbrev tried_again : PendingMessage
tried_again = record message { retry_count = 1; last_attempt_at = some 100 }

abbrev twice_failed : PendingMessage
twice_failed = fail_row 5 "gone" 2 100900 tried_again

twice_due : is_due 160001 twice_failed.next_attempt_at ≡ true
unfolding fail_row backoff_seconds
twice_due = refl

second_backoff_stale_example : is_stale 60 160001 twice_failed ≡ true
second_backoff_stale_example =
    second_backoff_stale tried_again twice_failed 5 "gone" 100000 100900 160001 refl refl refl refl
      refl refl (omega arith) twice_due (omega arith)
