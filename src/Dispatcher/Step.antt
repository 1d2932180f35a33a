-- ===== src/Dispatcher/Step.antt =====
-- The entry points of src/orchestrator/message-dispatcher.ts, as steps of the event loop.
use agentic_collab.Common.{
  ℕ, String, Bool, false, ◌&&◌, Option, none, some, List, [], ◌∷◌, leb, if◌then◌else◌, find, first,
  is_some,
}
use agentic_collab.Shared.Agent.{AgentRecord, truthy, can_suspend}
use agentic_collab.Database.Agents.{get_agent}
use agentic_collab.Database.Queue.{
  get_deliverable_messages, reset_stale_attempts, enqueue_message, cancel_pending_message,
  clear_pending_messages, agents_with_pending,
}
use agentic_collab.Dispatcher.State.{
  from_try, from_drain, cooling, sending, Flight, Dispatcher, of_agent, remove_key, schedule_drain,
  release_drain, signal_lifecycle_op, stale_attempt_timeout_s, lookup_key,
}
use agentic_collab.Dispatcher.Deliver.{Outcome, claim_delivery, continue_delivery, finish_delivery}

-- `agent && agent.proxyId && canSuspend(agent)`
abbrev pub can_receive : Option AgentRecord → Bool
can_receive none = false
can_receive (some a) = truthy a.proxy_id && can_suspend a

unfoldable pub recover_stale : Dispatcher → ℕ → Dispatcher
recover_stale d now = record d {
  queue = (reset_stale_attempts d.queue stale_attempt_timeout_s now).1;
}

unfoldable pub try_deliver : Dispatcher → String → ℕ → Dispatcher
try_deliver d agent now =
    let d' = recover_stale d now in
    if can_receive (get_agent d'.agents agent)
    then claim_delivery d' agent from_try now
    else if is_some (first (get_deliverable_messages d'.queue agent now))
    then schedule_drain d' agent 0
    else d'

unfoldable pub try_all : Dispatcher → List String → ℕ → Dispatcher
try_all d [] now = d
try_all d (agent ∷ agents) now = try_all (try_deliver d agent now) agents now

unfoldable pub drain_pending : Dispatcher → ℕ → Dispatcher
drain_pending d now = try_all d (agents_with_pending d.queue.rows) now

-- The body of a drain timer.
unfoldable pub fire : Dispatcher → String → ℕ → ℕ → Dispatcher
fire d agent attempt now =
    let d' = recover_stale (record d { timers = remove_key agent d.timers }) now in
    if can_receive (get_agent d'.agents agent)
    then claim_delivery d' agent (from_drain attempt) now
    else release_drain d' agent

-- A waiting delivery goes on: from its cool-down, not before its end, or from its paste.
unfoldable pub wake_flight : Dispatcher → Flight → Outcome → ℕ → Dispatcher
wake_flight d f outcome now = elim f.phase [
  | cooling none ↦ continue_delivery d f.agent f.caller none now
  | cooling (some end) ↦
      if leb end now then continue_delivery d f.agent f.caller (some end) now else d
  | sending id ↦ finish_delivery d f.agent f.caller id outcome now
]

-- What happens next: a call of a public method but `stop`, a timer, the end of an `await`, or a change of the
-- database by another part of the program.
pub data Event : Type 0 where
  try_agent : String → ℕ → Event
  sweep : ℕ → Event
  timer : String → ℕ → Event
  resume : String → Outcome → ℕ → Event
  signal : String → ℕ → Event
  enqueue : Option String → String → String → ℕ → Event
  cancel : ℕ → Event
  clear : String → Event
  set_agents : List AgentRecord → Event

unfoldable pub step : Dispatcher → Event → Dispatcher
step d (try_agent agent now) = try_deliver d agent now
step d (sweep now) = drain_pending d now
step d (timer agent now) = elim (lookup_key agent d.timers) [
  | none ↦ d
  | some attempt ↦ fire d agent attempt now
]
step d (resume agent outcome now) = elim (find (of_agent agent) d.in_flight) [
  | none ↦ d
  | some f ↦ wake_flight d f outcome now
]
step d (signal agent now) = signal_lifecycle_op d agent now
step d (enqueue source target envelope now) = record d {
  queue = (enqueue_message d.queue source target envelope now).1;
}
step d (cancel id) = record d { queue = cancel_pending_message d.queue id }
step d (clear agent) = record d { queue = clear_pending_messages d.queue agent }
step d (set_agents agents) = record d { agents = agents }

unfoldable pub run : Dispatcher → List Event → Dispatcher
run d [] = d
run d (e ∷ events) = run (step d e) events
