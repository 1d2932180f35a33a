-- ===== src/Shared/Agent.antt =====
-- The agent record of src/shared/types.ts and the helpers of src/shared/agent-entity.ts.
pub mod Entity
use agentic_collab.Common.{
  ℕ, String, Bool, true, false, not, ◌&&◌, ◌||◌, Option, none, some, List, [], ◌∷◌, ◌==◌, str_eq,
  any, if◌then◌else◌, or_else,
}
use Prim.Native.String

pub data AgentState : Type 0 where
  void spawning resuming suspending active idle suspended failed : AgentState

pub data EngineType : Type 0 where
  claude codex opencode : EngineType

abbrev pub state_code : AgentState → ℕ
state_code void = 0
state_code spawning = 1
state_code resuming = 2
state_code suspending = 3
state_code active = 4
state_code idle = 5
state_code suspended = 6
state_code failed = 7

-- `a === b`
abbrev pub state_eq : AgentState → AgentState → Bool
state_eq a b = state_code a == state_code b

-- The columns that a persona or the dashboard configures.
pub record AgentConfig : Type 0 where
  pub engine : EngineType
  pub model : Option String
  pub thinking : Option String
  pub cwd : String
  pub persona : Option String
  pub permissions : Option String
  pub agent_group : Option String
  pub launch_env : Option (List (String × String))
  pub account : Option String
  pub proxy_pin : Option String
  pub hook_start : Option String
  pub hook_resume : Option String
  pub hook_compact : Option String
  pub hook_exit : Option String
  pub hook_interrupt : Option String
  pub hook_reload : Option String
  pub hook_submit : Option String
  pub custom_buttons : Option String
  pub indicators : Option String
  pub icon : Option String

-- Times are milliseconds since the epoch; a missing one is `null`.
pub record AgentRecord : Type 0 where
  pub name : String
  pub config : AgentConfig
  pub sort_order : ℕ
  pub state : AgentState
  pub state_before_shutdown : Option String
  pub current_session_id : Option String
  pub tmux_session : Option String
  pub proxy_id : Option String
  pub last_activity : Option ℕ
  pub last_context_pct : Option ℕ
  pub reload_queued : ℕ
  pub reload_task : Option String
  pub failed_at : Option ℕ
  pub failure_reason : Option String
  pub captured_vars : Option (List (String × String))
  pub version : ℕ
  pub spawn_count : ℕ
  pub created_at : ℕ

-- A value that JavaScript takes for true: not `null`, and not the empty string.
abbrev pub truthy : Option String → Bool
truthy none = false
truthy (some s) = not (str_eq s "")

unfoldable pub session_name : AgentRecord → String
session_name agent = or_else agent.tmux_session (String.◌++◌ "agent-" agent.name)

-- `ProxyUnavailableError`: the agent, and the proxy that is not registered.
pub record ProxyUnavailable : Type 0 where
  pub agent_name : String
  pub pin : Option String

pub data Placement : Type 0 where
  placed : String → Placement
  unavailable : ProxyUnavailable → Placement

-- `registeredProxies && !registeredProxies.has(id)`
abbrev pub unregistered : Option (List String) → String → Bool
unregistered none id = false
unregistered (some ids) id = not (any (λ p. str_eq p id) ids)

unfoldable pub require_assigned : AgentRecord → Option (List String) → Option String → Placement
require_assigned agent registered none =
    unavailable (record { agent_name = agent.name; pin = none })
require_assigned agent registered (some id) =
    if str_eq id ""
    then unavailable (record { agent_name = agent.name; pin = none })
    else if unregistered registered id
    then unavailable (record { agent_name = agent.name; pin = some id })
    else placed id

unfoldable pub require_pinned : AgentRecord → Option (List String) → Option String → Placement
unfolding require_assigned
require_pinned agent registered none = require_assigned agent registered agent.proxy_id
require_pinned agent registered (some pin) =
    if str_eq pin ""
    then require_assigned agent registered agent.proxy_id
    else if unregistered registered pin
    then unavailable (record { agent_name = agent.name; pin = some pin })
    else placed pin

unfoldable pub require_proxy : AgentRecord → Option (List String) → Placement
unfolding require_pinned
require_proxy agent registered = require_pinned agent registered agent.config.proxy_pin

unfoldable pub is_running : AgentRecord → Bool
is_running agent =
    state_eq agent.state active
    || state_eq agent.state idle
    || state_eq agent.state spawning
    || state_eq agent.state resuming

unfoldable pub is_transitioning : AgentRecord → Bool
is_transitioning agent =
    state_eq agent.state spawning
    || state_eq agent.state resuming
    || state_eq agent.state suspending

unfoldable pub can_suspend : AgentRecord → Bool
can_suspend agent = state_eq agent.state active || state_eq agent.state idle

unfoldable pub can_resume : AgentRecord → Bool
can_resume agent = state_eq agent.state suspended || state_eq agent.state failed
