-- ===== src/Dispatcher/Deliver.antt =====
-- The parts of a delivery in src/orchestrator/message-dispatcher.ts between its `await`s.
use Prim.Native.String
use agentic_collab.Common.{
  ℕ, ◌+◌, String, Bool, true, false, ◌&&◌, Option, none, some, ltb, str_eq, if◌then◌else◌, is_some,
  find, show, or_else, first,
}
use agentic_collab.Shared.Agent.{AgentRecord, truthy}
use agentic_collab.Database.Agents.{get_agent}
use agentic_collab.Database.Queue.{
  MessageStatus, PendingMessage, has_pending_messages, get_deliverable_messages,
  get_pending_message_by_id, enqueue_message, mark_attempt_started, mark_attempt_failed,
  mark_message_delivered, max_delivery_retries,
}
use agentic_collab.Dispatcher.State.{
  Caller, from_try, from_drain, cooling, sending, queue_update, dashboard_message,
  message_delivered, Dispatcher, drain_max_attempts, of_agent, begin_cool_down, end_cool_down,
  schedule_drain, release_drain, release_flight, add_flight, emit,
}

-- The answer of `deliverToAgent`: `null`, an error text, or an exception of its own.
pub data Outcome : Type 0 where
  success : Outcome
  failure : String → Outcome
  thrown : Outcome

unfoldable pub failure_text : PendingMessage → String
failure_text m = String.◌++◌ "[system] Delivery to " (
    String.◌++◌ m.target_agent (
      String.◌++◌ " failed after " (
        String.◌++◌ (show m.retry_count)
          (String.◌++◌ " attempts: " (or_else m.error "unknown error")))))

-- `if (message.sourceAgent)`: who sent the message, if it was an agent.
abbrev pub sender : PendingMessage → Option String
sender m = elim m.source_agent [ none ↦ none | some s ↦ if str_eq s "" then none else some s ]

unfoldable pub auto_reply_to_sender : Dispatcher → PendingMessage → ℕ → Dispatcher
unfolding emit
auto_reply_to_sender d m now = elim (sender m) [
  | none ↦ emit d (dashboard_message m.target_agent (failure_text m))
  | some s ↦
      let (reply, queue) = enqueue_message d.queue none s (failure_text m) now in
      emit (record d { queue = queue }) (queue_update reply)
]

abbrev pub is_failed : MessageStatus → Bool
is_failed MessageStatus.failed = true
is_failed MessageStatus.pending = false
is_failed MessageStatus.delivered = false

-- The row is read back after the update, if it is still there.
unfoldable pub report_failure : Dispatcher → Option PendingMessage → ℕ → Dispatcher
report_failure d none now = d
report_failure d (some updated) now =
    let d' = emit d (queue_update updated) in
    if is_failed updated.status then auto_reply_to_sender d' updated now else d'

unfoldable pub fail_attempt : Dispatcher → ℕ → String → ℕ → Dispatcher
fail_attempt d id error now =
    let queue = mark_attempt_failed d.queue id error max_delivery_retries now in
    report_failure (record d { queue = queue }) (get_pending_message_by_id queue id) now

unfoldable pub report_delivery : Dispatcher → String → Option PendingMessage → Dispatcher
report_delivery d agent none = emit d (message_delivered agent)
report_delivery d agent (some updated) =
    emit (emit d (queue_update updated)) (message_delivered agent)

unfoldable pub complete_attempt : Dispatcher → String → ℕ → ℕ → Dispatcher
complete_attempt d agent id now =
    let queue = mark_message_delivered d.queue id now in
    report_delivery (record d { queue = queue }) agent (get_pending_message_by_id queue id)

-- What follows `await this.deliverNextMessage(agentName)` in `tryDeliver` and in the drain loop.
unfoldable pub resume_caller : Dispatcher → String → Caller → Dispatcher
resume_caller d agent from_try =
    if has_pending_messages d.queue agent then schedule_drain d agent 0 else d
resume_caller d agent (from_drain attempt) =
    if has_pending_messages d.queue agent && ltb (attempt + 1) drain_max_attempts
    then schedule_drain (release_drain d agent) agent (attempt + 1)
    else release_drain d agent

-- The same where the delivery threw: the drain loop catches, `tryDeliver` passes it on.
unfoldable pub resume_thrown : Dispatcher → String → Caller → Dispatcher
resume_thrown d agent from_try = d
resume_thrown d agent (from_drain attempt) = release_drain d agent

-- `deliverNextMessage` up to its first `await`.
unfoldable pub claim_delivery : Dispatcher → String → Caller → ℕ → Dispatcher
claim_delivery d agent caller now =
    if is_some (find (of_agent agent) d.in_flight)
    then resume_caller d agent caller
    else (let (wake, d') = begin_cool_down d agent now in add_flight d' agent caller (cooling wake))

-- `!agent || !agent.proxyId`
abbrev pub has_proxy : Option AgentRecord → Bool
has_proxy none = false
has_proxy (some a) = truthy a.proxy_id

-- Between the two `await`s: the oldest message that is due, and the agent it is for.
unfoldable pub fetch_message : Dispatcher → String → Caller → Option PendingMessage → ℕ → Dispatcher
fetch_message d agent caller none now = resume_caller (release_flight d agent) agent caller
fetch_message d agent caller (some m) now =
    let d' = record d { queue = mark_attempt_started d.queue m.id now } in
    if has_proxy (get_agent d'.agents agent)
    then add_flight (release_flight d' agent) agent caller (sending m.id)
    else resume_caller
        (release_flight (fail_attempt d' m.id "Agent not available or has no proxy" now) agent)
        agent caller

unfoldable pub continue_delivery : Dispatcher → String → Caller → Option ℕ → ℕ → Dispatcher
continue_delivery d agent caller wake now =
    let d' = end_cool_down d agent wake in
    fetch_message d' agent caller (first (get_deliverable_messages d'.queue agent now)) now

-- After `await deliverToAgent(…)`.
unfoldable pub finish_delivery : Dispatcher → String → Caller → ℕ → Outcome → ℕ → Dispatcher
finish_delivery d agent caller id success now =
    resume_caller (release_flight (complete_attempt d agent id now) agent) agent caller
finish_delivery d agent caller id (failure error) now =
    resume_caller (release_flight (fail_attempt d id error now) agent) agent caller
finish_delivery d agent caller id thrown now = resume_thrown (release_flight d agent) agent caller
