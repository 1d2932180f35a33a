-- ===== src/Dispatcher/State.antt =====
-- The fields of `MessageDispatcher` (src/orchestrator/message-dispatcher.ts), its cool-down and its
-- drain timers.
use agentic_collab.Common.{
  ℕ, ◌+◌, String, Bool, not, Option, none, some, List, [], ◌∷◌, ◌++◌, ◌==◌, leb, str_eq,
  if◌then◌else◌, find, select, any,
}
use agentic_collab.Shared.Agent.{AgentRecord}
use agentic_collab.Database.Queue.{PendingMessage, Queue, has_pending_messages}

abbrev pub drain_max_attempts : ℕ
drain_max_attempts = 20

abbrev pub stale_attempt_timeout_s : ℕ
stale_attempt_timeout_s = 60

abbrev pub lifecycle_cooldown_ms : ℕ
lifecycle_cooldown_ms = 300

-- Who waits for a delivery: `tryDeliver`, or the drain loop in its attempt with this number.
pub data Caller : Type 0 where
  from_try : Caller
  from_drain : ℕ → Caller

-- Where a delivery waits: for the end of a cool-down, or for the paste of a message.
pub data Phase : Type 0 where
  cooling : Option ℕ → Phase
  sending : ℕ → Phase

pub record Flight : Type 0 where
  pub agent : String
  pub caller : Caller
  pub phase : Phase

-- What the callbacks are called with.
pub data Output : Type 0 where
  queue_update : PendingMessage → Output
  dashboard_message : String → String → Output
  message_delivered : String → Output

pub record Dispatcher : Type 0 where
  pub agents : List AgentRecord
  pub queue : Queue
  pub draining : List String
  pub timers : List (String × ℕ)
  pub in_flight : List Flight
  pub cool_down : List (String × ℕ)
  pub outputs : List Output

abbrev pub of_agent : String → Flight → Bool
of_agent agent f = str_eq f.agent agent

abbrev pub keyed : String → String × ℕ → Bool
keyed agent (a, n) = str_eq a agent

-- `Set.has`
abbrev pub is_member : List String → String → Bool
is_member names agent = any (λ a. str_eq a agent) names

abbrev pub remove_name : String → List String → List String
remove_name agent names = select (λ a. not (str_eq a agent)) names

-- `Map.delete`, `Map.set`
abbrev pub remove_key : String → List (String × ℕ) → List (String × ℕ)
remove_key agent entries = select (λ e. not (keyed agent e)) entries

abbrev pub set_key : String → ℕ → List (String × ℕ) → List (String × ℕ)
set_key agent n entries = (agent, n) ∷ remove_key agent entries

abbrev pub lookup_key : String → List (String × ℕ) → Option ℕ
lookup_key agent entries = elim (find (keyed agent) entries) [ none ↦ none | some (a, n) ↦ some n ]

unfoldable pub signal_lifecycle_op : Dispatcher → String → ℕ → Dispatcher
signal_lifecycle_op d agent now = record d {
  cool_down = set_key agent (now + lifecycle_cooldown_ms) d.cool_down;
}

-- The first half of `waitForCoolDown`: until when the delivery waits, if it does.
unfoldable pub begin_cool_down : Dispatcher → String → ℕ → Option ℕ × Dispatcher
begin_cool_down d agent now = elim (lookup_key agent d.cool_down) [
  | none ↦ (none, d)
  | some end ↦
      if end == 0
      then (none, d)
      else if leb end now
      then (none, record d { cool_down = remove_key agent d.cool_down })
      else (some end, d)
]

-- Its second half: a delivery that waited deletes the entry that is there by then.
unfoldable pub end_cool_down : Dispatcher → String → Option ℕ → Dispatcher
end_cool_down d agent none = d
end_cool_down d agent (some end) = record d { cool_down = remove_key agent d.cool_down }

unfoldable pub schedule_drain : Dispatcher → String → ℕ → Dispatcher
schedule_drain d agent attempt =
    if is_member d.draining agent
    then d
    else if leb drain_max_attempts attempt
    then d
    else if not (has_pending_messages d.queue agent)
    then d
    else record d { draining = agent ∷ d.draining; timers = set_key agent attempt d.timers }

unfoldable pub release_drain : Dispatcher → String → Dispatcher
release_drain d agent = record d { draining = remove_name agent d.draining }

unfoldable pub release_flight : Dispatcher → String → Dispatcher
release_flight d agent = record d { in_flight = select (λ f. not (of_agent agent f)) d.in_flight }

unfoldable pub add_flight : Dispatcher → String → Caller → Phase → Dispatcher
add_flight d agent caller phase = record d {
  in_flight = (record { agent = agent; caller = caller; phase = phase }) ∷ d.in_flight;
}

unfoldable pub emit : Dispatcher → Output → Dispatcher
emit d o = record d { outputs = d.outputs ++ o ∷ [] }
