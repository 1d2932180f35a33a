-- ===== src/Dispatcher/Updates.antt =====
-- Updates of the dispatcher that its loops do not see (src/orchestrator/message-dispatcher.ts).
use agentic_collab.Common.{◌∙◌, ℕ, String, refl, Option, none, some, arith, inl, inr, Bool-cases}
use agentic_collab.Database.Queue.{
  PendingMessage, get_pending_message_by_id, mark_attempt_failed, max_delivery_retries,
  mark_message_delivered,
}
use agentic_collab.Dispatcher.State.{Dispatcher, Output, begin_cool_down, end_cool_down, emit}
use agentic_collab.Dispatcher.Deliver.{
  auto_reply_to_sender, report_failure, fail_attempt, report_delivery, complete_attempt, is_failed,
}
use agentic_collab.Dispatcher.Loops.{SameLoops}

pub SameLoops-refl : (d : Dispatcher) → SameLoops d d
SameLoops-refl d = record { draining = refl; timers = refl; in_flight = refl }

pub SameLoops-trans : {a b c : Dispatcher} → SameLoops a b → SameLoops b c → SameLoops a c
SameLoops-trans s t = record {
  draining = s.draining ∙ t.draining;
  timers = s.timers ∙ t.timers;
  in_flight = s.in_flight ∙ t.in_flight;
}

auto_reply-SameLoops :
    (d : Dispatcher) (m : PendingMessage) (now : ℕ) → SameLoops (auto_reply_to_sender d m now) d
unfolding auto_reply_to_sender
auto_reply-SameLoops d m now = record {
  draining = ground arith;
  timers = ground arith;
  in_flight = ground arith;
}

report_failure-SameLoops :
    (d : Dispatcher) (o : Option PendingMessage) (now : ℕ) → SameLoops (report_failure d o now) d
unfolding report_failure emit
report_failure-SameLoops d none now = SameLoops-refl d
report_failure-SameLoops d (some m) now = elim (Bool-cases (is_failed m.status)) [
  | inl t ↦ rw t (
      let s = auto_reply-SameLoops (emit d (Output.queue_update m)) m now in
      record { draining = s.draining; timers = s.timers; in_flight = s.in_flight })
  | inr t ↦ rw t (record { draining = refl; timers = refl; in_flight = refl })
]

pub fail_attempt-SameLoops :
    (d : Dispatcher) (id : ℕ) (error : String) (now : ℕ) → SameLoops (fail_attempt d id error now) d
unfolding fail_attempt
fail_attempt-SameLoops d id error now =
    let queue = mark_attempt_failed d.queue id error max_delivery_retries now in
    let s =
      report_failure-SameLoops (record d { queue = queue }) (get_pending_message_by_id queue id)
        now in
    record { draining = s.draining; timers = s.timers; in_flight = s.in_flight }

report_delivery-SameLoops :
    (d : Dispatcher) (a : String) (o : Option PendingMessage) → SameLoops (report_delivery d a o) d
unfolding report_delivery emit
report_delivery-SameLoops d a none = record { draining = refl; timers = refl; in_flight = refl }
report_delivery-SameLoops d a (some m) = record { draining = refl; timers = refl; in_flight = refl }

pub complete_attempt-SameLoops :
    (d : Dispatcher) (a : String) (id now : ℕ) → SameLoops (complete_attempt d a id now) d
unfolding complete_attempt
complete_attempt-SameLoops d a id now =
    let queue = mark_message_delivered d.queue id now in
    let s =
      report_delivery-SameLoops (record d { queue = queue }) a
        (get_pending_message_by_id queue id) in
    record { draining = s.draining; timers = s.timers; in_flight = s.in_flight }

pub begin_cool_down-SameLoops :
    (d : Dispatcher) (a : String) (now : ℕ) → SameLoops (begin_cool_down d a now).1 d
unfolding begin_cool_down
begin_cool_down-SameLoops d a now = record {
  draining = ground arith;
  timers = ground arith;
  in_flight = ground arith;
}

pub end_cool_down-SameLoops :
    (d : Dispatcher) (a : String) (wake : Option ℕ) → SameLoops (end_cool_down d a wake) d
unfolding end_cool_down
end_cool_down-SameLoops d a none = SameLoops-refl d
end_cool_down-SameLoops d a (some n) = record { draining = refl; timers = refl; in_flight = refl }
