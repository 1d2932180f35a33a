-- ===== src/Database/Agents.antt =====
-- The `agents` table of src/orchestrator/database.ts. A row is the record that `mapAgentRow` gives;
-- `name` is the primary key. What throws returns an error and leaves the table as it was.
pub mod Versions
use agentic_collab.Common.{
  ℕ, ◌+◌, String, Bool, true, false, not, ◌&&◌, Option, none, some, List, [], ◌∷◌, ◌++◌, ◌==◌,
  str_eq, if◌then◌else◌, or_else, find, update, count, select, ltb, is_some,
}
use agentic_collab.Shared.Agent.{AgentState, AgentConfig, AgentRecord, void}

pub data DbError : Type 0 where
  agent_not_found : String → DbError
  version_conflict : (expected : ℕ) → (got : ℕ) → DbError
  conflict_on_update : String → DbError

pub data Result {ℓ} (A : Type ℓ) : Type ℓ where
  ok : A → Result A
  err : DbError → Result A

-- The optional columns of `updateAgentState`: `none` is `undefined`, which leaves the column alone.
-- `launchEnv`, which no caller passes, is left out.
pub record Extra : Type 0 where
  pub current_session_id : Option (Option String)
  pub tmux_session : Option (Option String)
  pub proxy_id : Option (Option String)
  pub last_activity : Option (Option ℕ)
  pub last_context_pct : Option (Option ℕ)
  pub reload_queued : Option ℕ
  pub reload_task : Option (Option String)
  pub failed_at : Option (Option ℕ)
  pub failure_reason : Option (Option String)
  pub state_before_shutdown : Option (Option String)
  pub spawn_count : Option ℕ
  pub agent_group : Option (Option String)

abbrev pub no_extra : Extra
no_extra = record {
  current_session_id = none;
  tmux_session = none;
  proxy_id = none;
  last_activity = none;
  last_context_pct = none;
  reload_queued = none;
  reload_task = none;
  failed_at = none;
  failure_reason = none;
  state_before_shutdown = none;
  spawn_count = none;
  agent_group = none;
}

abbrev pub named : String → AgentRecord → Bool
named name a = str_eq a.name name

unfoldable pub get_agent : List AgentRecord → String → Option AgentRecord
get_agent agents name = find (named name) agents

-- The `SET` clause of `updateAgentState`.
unfoldable pub set_state : AgentState → Extra → AgentRecord → AgentRecord
set_state state extra a = record a {
  state = state;
  version = a.version + 1;
  current_session_id = or_else extra.current_session_id a.current_session_id;
  tmux_session = or_else extra.tmux_session a.tmux_session;
  proxy_id = or_else extra.proxy_id a.proxy_id;
  last_activity = or_else extra.last_activity a.last_activity;
  last_context_pct = or_else extra.last_context_pct a.last_context_pct;
  reload_queued = or_else extra.reload_queued a.reload_queued;
  reload_task = or_else extra.reload_task a.reload_task;
  failed_at = or_else extra.failed_at a.failed_at;
  failure_reason = or_else extra.failure_reason a.failure_reason;
  state_before_shutdown = or_else extra.state_before_shutdown a.state_before_shutdown;
  spawn_count = or_else extra.spawn_count a.spawn_count;
  config = record (a.config) { agent_group = or_else extra.agent_group a.config.agent_group };
}

-- `WHERE name = ? AND version = ?`
abbrev pub at_version : String → ℕ → AgentRecord → Bool
at_version name expected a = str_eq a.name name && a.version == expected

-- The `UPDATE` and the read that follows it.
unfoldable pub write_state :
    List AgentRecord → String → AgentState → ℕ → Extra → Result (AgentRecord × List AgentRecord)
write_state agents name state expected extra =
    let agents' = update (at_version name expected) (set_state state extra) agents in
    if count (at_version name expected) agents == 0
    then err (conflict_on_update name)
    else elim (get_agent agents' name) [
      | none ↦ err (agent_not_found name)
      | some a ↦ ok (a, agents')
    ]

unfoldable pub update_agent_state :
    List AgentRecord → String → AgentState → ℕ → Extra → Result (AgentRecord × List AgentRecord)
update_agent_state agents name state expected extra = elim (get_agent agents name) [
  | none ↦ err (agent_not_found name)
  | some agent ↦
      if not (agent.version == expected)
      then err (version_conflict expected agent.version)
      else write_state agents name state expected extra
]

-- The row that an insert makes: the schema's defaults beside the configured columns.
unfoldable pub fresh_agent : String → AgentConfig → Option String → ℕ → AgentRecord
fresh_agent name config proxy_id now = record {
  name = name;
  config = config;
  sort_order = 0;
  state = void;
  state_before_shutdown = none;
  current_session_id = none;
  tmux_session = none;
  proxy_id = proxy_id;
  last_activity = none;
  last_context_pct = none;
  reload_queued = 0;
  reload_task = none;
  failed_at = none;
  failure_reason = none;
  captured_vars = none;
  version = 0;
  spawn_count = 0;
  created_at = now;
}

-- `INSERT INTO agents`; `none` is the constraint error of a key that is there already.
unfoldable pub create_agent :
    List AgentRecord → String → AgentConfig → Option String → ℕ → Option (List AgentRecord)
create_agent agents name config proxy_id now =
    if count (named name) agents == 0
    then some (agents ++ fresh_agent name config proxy_id now ∷ [])
    else none

-- `DELETE FROM agents`
unfoldable pub delete_agent_row : List AgentRecord → String → List AgentRecord
delete_agent_row agents name = select (λ a. not (named name a)) agents

-- `deleteAgent`: the row goes, and the name's entry in `agent_telegram_tokens`; whether a row went.
unfoldable pub delete_agent :
    List AgentRecord → List String → String → Bool × (List AgentRecord × List String)
delete_agent agents tokens name = (
  ltb 0 (count (named name) agents),
  (delete_agent_row agents name, select (λ n. not (str_eq n name)) tokens),
)

-- `vars[varName] = value`
unfoldable pub set_var : String → String → List (String × String) → List (String × String)
set_var var value [] = (var, value) ∷ []
set_var var value ((k, v) ∷ vars) =
    let rest = set_var var value vars in if str_eq k var then (k, value) ∷ vars else (k, v) ∷ rest

abbrev pub with_vars : List (String × String) → AgentRecord → AgentRecord
with_vars vars a = record a { captured_vars = some vars }

-- The version stays as it is.
unfoldable pub update_agent_captured_var :
    List AgentRecord → String → String → String → List AgentRecord
update_agent_captured_var agents name var value = elim (get_agent agents name) [
  | none ↦ agents
  | some a ↦ update (named name) (with_vars (set_var var value (or_else a.captured_vars []))) agents
]

-- `column = ?`, which a `NULL` column fails.
abbrev pub is_text : Option String → String → Bool
is_text none t = false
is_text (some s) t = str_eq s t

-- `proxy_id = ? AND proxy_pin IS NULL`
abbrev pub migrates : String → AgentRecord → Bool
migrates from a = is_text a.proxy_id from && not (is_some a.config.proxy_pin)

-- Un-pinned agents of one proxy move to another; the count of rows comes back.
unfoldable pub migrate_agents_to_proxy : List AgentRecord → String → String → ℕ × List AgentRecord
migrate_agents_to_proxy agents from to = (
  count (migrates from) agents,
  update (migrates from) (λ a. record a { proxy_id = some to }) agents,
)
