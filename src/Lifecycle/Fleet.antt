-- ===== src/Lifecycle/Fleet.antt =====
-- What the operations of src/orchestrator/lifecycle.ts work on, and what they answer.
use agentic_collab.Common.{ℕ, String, Option, some, List, [], ◌∷◌, ◌++◌}
use Prim.Native.String
use agentic_collab.Shared.Agent.{
  AgentState, void, spawning, resuming, suspending, active, idle, suspended, failed, AgentRecord,
  ProxyUnavailable,
}
use agentic_collab.Database.Agents.{DbError, Result, ok, err, Extra, no_extra, update_agent_state}

-- The long operations; each has an intermediate state.
pub data Operation : Type 0 where
  spawn resume suspend reload recover : Operation

abbrev pub intermediate : Operation → AgentState
intermediate spawn = spawning
intermediate resume = resuming
intermediate suspend = suspending
intermediate reload = suspending
intermediate recover = spawning

-- A state as the source spells it.
abbrev pub state_name : AgentState → String
state_name void = "void"
state_name spawning = "spawning"
state_name resuming = "resuming"
state_name suspending = "suspending"
state_name active = "active"
state_name idle = "idle"
state_name suspended = "suspended"
state_name failed = "failed"

-- What a proxy answers to a command; `rejected` is a promise that rejects.
pub data Answer : Type 0 where
  succeeded : Answer
  unsuccessful : Option String → Answer
  rejected : String → Answer

pub data Command : Type 0 where
  kill_session : String → Command
  remove_profile : String → Command

-- The rows of `agents`, the ids in `proxies`, the events that were logged with their agents, and the
-- commands that were sent with the proxies they went to; `tokens` are the agents with a Telegram token.
pub record Fleet : Type 0 where
  pub agents : List AgentRecord
  pub registered : List String
  pub events : List (String × String)
  pub sent : List (String × Command)
  pub tokens : List String

pub data Refusal : Type 0 where
  not_found : String → Refusal
  wrong_state : AgentState → Refusal
  unassigned : Refusal
  no_proxy : ProxyUnavailable → Refusal
  database : DbError → Refusal
  proxy_error : String → Refusal

-- An operation returns the record, or throws; the fleet is as it is then.
pub data Reply : Type 0 where
  done : AgentRecord → Fleet → Reply
  refused : Refusal → Fleet → Reply

abbrev pub fleet_of : Reply → Fleet
fleet_of (done a fleet) = fleet
fleet_of (refused r fleet) = fleet

abbrev pub log_event : String → String → Fleet → Fleet
log_event name event fleet = record fleet { events = fleet.events ++ (name, event) ∷ [] }

abbrev pub log_done : String → String → Reply → Reply
log_done name event (done a fleet) = done a (log_event name event fleet)
log_done name event (refused r fleet) = refused r fleet

abbrev pub send : String → Command → Fleet → Fleet
send proxy command fleet = record fleet { sent = fleet.sent ++ (proxy, command) ∷ [] }

abbrev pub of_result : Fleet → Result (AgentRecord × List AgentRecord) → Reply
of_result fleet (ok (a, agents)) = done a (record fleet { agents = agents })
of_result fleet (err e) = refused (database e) fleet

-- `ctx.db.updateAgentState`
unfoldable pub write_agent : Fleet → String → AgentState → ℕ → Extra → Reply
write_agent fleet name state version extra =
    of_result fleet (update_agent_state fleet.agents name state version extra)

-- `agent-${name}`
abbrev pub default_session : String → String
default_session name = String.◌++◌ "agent-" name

abbrev pub touched : ℕ → Extra
touched now = record no_extra { last_activity = some (some now) }
