-- ===== src/Lifecycle/Single.antt =====
-- The operations of src/orchestrator/lifecycle.ts that hold the lock from start to end. What the
-- proxy answers, what `resolveHook` resolves to and the adapter's command are arguments, and so is
-- what other parts of the program, which take no lock, do while a kill or a compaction waits
-- (`meanwhile`).
use agentic_collab.Common.{ℕ, String, ◌||◌, Option, none, some, str_eq, if◌then◌else◌}
use agentic_collab.Shared.Agent.{
  active, idle, suspended, AgentRecord, Placement, placed, unavailable, state_eq, session_name,
  require_proxy, can_suspend,
}
use agentic_collab.Database.Agents.{
  Extra, no_extra, get_agent, delete_agent, update_agent_captured_var,
}
use agentic_collab.Lifecycle.Fleet.{
  Fleet, fleet_of, Reply, done, refused, not_found, wrong_state, no_proxy, proxy_error, Answer,
  succeeded, unsuccessful, rejected, kill_session, remove_profile, log_event, log_done, send,
  write_agent, touched,
}

abbrev pub queued_extra : Option String → Extra
queued_extra task = record no_extra { reload_queued = some 1; reload_task = some task }

unfoldable pub queue_on : Fleet → String → Option String → Option AgentRecord → Reply
queue_on fleet name task none = refused (not_found name) fleet
queue_on fleet name task (some agent) =
    if can_suspend agent
    then log_done name "reload_queued"
        (write_agent fleet name agent.state agent.version (queued_extra task))
    else refused (wrong_state agent.state) fleet

-- `reloadAgent` in queue mode.
unfoldable pub queue_reload : Fleet → String → Option String → Reply
queue_reload fleet name task = queue_on fleet name task (get_agent fleet.agents name)

abbrev pub killed_extra : ℕ → Extra
killed_extra now = record (touched now) { tmux_session = some none; current_session_id = some none }

-- The proxy's answer does not matter to a kill, unless the promise rejects.
unfoldable pub after_kill : Fleet → AgentRecord → String → ℕ → Answer → Reply
after_kill fleet agent name now (rejected error) = refused (proxy_error error) fleet
after_kill fleet agent name now succeeded =
    log_done name "killed" (write_agent fleet name suspended agent.version (killed_extra now))
after_kill fleet agent name now (unsuccessful error) =
    log_done name "killed" (write_agent fleet name suspended agent.version (killed_extra now))

module _ (meanwhile : Fleet → Fleet) where
  unfoldable pub kill_placed : Fleet → AgentRecord → String → ℕ → Answer → Placement → Reply
  kill_placed fleet agent name now answer (unavailable error) = refused (no_proxy error) fleet
  kill_placed fleet agent name now answer (placed proxy) =
      after_kill (meanwhile (send proxy (kill_session (session_name agent)) fleet)) agent name now
        answer

  unfoldable pub kill_on : Fleet → String → ℕ → Answer → Option AgentRecord → Reply
  kill_on fleet name now answer none = refused (not_found name) fleet
  kill_on fleet name now answer (some agent) =
      kill_placed fleet agent name now answer (require_proxy agent (some fleet.registered))

  -- `killAgent`: the write at the end names the version that was read before the proxy was called.
  unfoldable pub kill_agent : Fleet → String → ℕ → Answer → Reply
  kill_agent fleet name now answer = kill_on fleet name now answer (get_agent fleet.agents name)

-- What `compactAgent` awaits: the hook resolves to nothing, or its dispatch ends or rejects.
pub data Compaction : Type 0 where
  skipped : Compaction
  dispatched : Compaction
  dispatch_rejected : String → Compaction

module _ (meanwhile : Fleet → Fleet) where
  -- After the dispatch, which may have written to the row.
  unfoldable pub after_compact : Fleet → AgentRecord → String → ℕ → Reply
  after_compact fleet agent name now =
      if state_eq agent.state idle
      then log_done name "compact_requested"
          (write_agent fleet name active agent.version (touched now))
      else done agent (log_event name "compact_requested" fleet)

  unfoldable pub compact_placed : Fleet → AgentRecord → String → ℕ → Compaction → Placement → Reply
  compact_placed fleet agent name now hook (unavailable error) = refused (no_proxy error) fleet
  compact_placed fleet agent name now skipped (placed proxy) =
      done agent (log_event name "compact_skipped" fleet)
  compact_placed fleet agent name now (dispatch_rejected error) (placed proxy) =
      refused (proxy_error error) (meanwhile fleet)
  compact_placed fleet agent name now dispatched (placed proxy) =
      after_compact (meanwhile fleet) agent name now

  unfoldable pub compact_on : Fleet → String → ℕ → Compaction → Option AgentRecord → Reply
  compact_on fleet name now hook none = refused (not_found name) fleet
  compact_on fleet name now hook (some agent) =
      compact_placed fleet agent name now hook (require_proxy agent (some fleet.registered))

  -- `compactAgent`
  unfoldable pub compact_agent : Fleet → String → ℕ → Compaction → Reply
  compact_agent fleet name now hook = compact_on fleet name now hook (get_agent fleet.agents name)

-- What the capture step of `dispatchHookResult` stores: the variable, and the session's id again
-- where the variable is `SESSION_ID`.
unfoldable pub store_session : String → String → Fleet → Option AgentRecord → Fleet
store_session name value fleet none = fleet
store_session name value fleet (some latest) = fleet_of (
    write_agent fleet name latest.state latest.version
      (record no_extra { current_session_id = some (some value) }))

unfoldable pub store_var : Fleet → String → String → String → Fleet
store_var fleet name var value = record fleet {
  agents = update_agent_captured_var fleet.agents name var value;
}

unfoldable pub store_captured : Fleet → String → String → String → Fleet
store_captured fleet name var value =
    let stored = store_var fleet name var value in
    if str_eq var "SESSION_ID"
    then store_session name value stored (get_agent stored.agents name)
    else stored

-- The `kill_session` of `destroyAgent` went out and did not reject: the profile of an engine that
-- has one is removed, whatever comes of it, and the row is deleted.
unfoldable pub delete_row : Fleet → AgentRecord → String → Option String → Fleet
delete_row fleet agent name profile =
    let (gone, (agents, tokens)) = delete_agent fleet.agents fleet.tokens name in
    log_event name "destroyed"
      (record (remove_profile_of fleet agent.proxy_id profile) { agents = agents; tokens = tokens })
  where
    remove_profile_of : Fleet → Option String → Option String → Fleet
    remove_profile_of f none p = f
    remove_profile_of f (some proxy) none = f
    remove_profile_of f (some proxy) (some p) =
        if str_eq proxy "" then f else send proxy (remove_profile p) f

unfoldable pub after_last_kill : Fleet → AgentRecord → String → Option String → Answer → Reply
after_last_kill fleet agent name profile succeeded =
    done agent (delete_row fleet agent name profile)
after_last_kill fleet agent name profile (unsuccessful error) =
    done agent (delete_row fleet agent name profile)
after_last_kill fleet agent name profile (rejected error) = refused (proxy_error error) fleet

unfoldable pub kill_before_delete :
    Fleet → AgentRecord → String → Option String → Answer → Option String → Option String → Reply
kill_before_delete fleet agent name profile answer none tmux =
    done agent (delete_row fleet agent name profile)
kill_before_delete fleet agent name profile answer (some proxy) none =
    done agent (delete_row fleet agent name profile)
kill_before_delete fleet agent name profile answer (some proxy) (some tmux) =
    if str_eq proxy "" || str_eq tmux ""
    then done agent (delete_row fleet agent name profile)
    else after_last_kill (send proxy (kill_session tmux) fleet) agent name profile answer

unfoldable pub destroy_on : Fleet → String → Option String → Answer → Option AgentRecord → Reply
destroy_on fleet name profile answer none = refused (not_found name) fleet
destroy_on fleet name profile answer (some agent) =
    kill_before_delete fleet agent name profile answer agent.proxy_id agent.tmux_session

-- `destroyAgent`
unfoldable pub destroy_agent : Fleet → String → Option String → Answer → Reply
destroy_agent fleet name profile answer =
    destroy_on fleet name profile answer (get_agent fleet.agents name)
