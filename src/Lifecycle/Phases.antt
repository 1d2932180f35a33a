-- ===== src/Lifecycle/Phases.antt =====
-- The first and the last phase of spawn, resume, suspend, reload and recover, and the two ways to
-- fail between them (src/orchestrator/lifecycle.ts).
use agentic_collab.Common.{
  ℕ, ◌+◌, ◌/◌, String, Bool, false, not, ◌&&◌, ◌||◌, Option, none, some, str_eq, if◌then◌else◌,
  show,
}
use Prim.Native.String
use agentic_collab.Shared.Agent.{
  AgentState, void, spawning, resuming, suspending, active, suspended, failed, AgentRecord,
  Placement, placed, unavailable, state_eq, require_proxy, can_suspend, can_resume,
}
use agentic_collab.Database.Agents.{Extra, no_extra, get_agent}
use agentic_collab.Lifecycle.Fleet.{
  Fleet, Reply, done, refused, not_found, wrong_state, unassigned, no_proxy, fleet_of, log_event,
  log_done, send, kill_session, write_agent, default_session, touched, state_name, Operation, spawn,
  resume, suspend, reload, recover,
}

abbrev pub spawn_extra : String → String → ℕ → Extra
spawn_extra name proxy now = record (touched now) {
  tmux_session = some (some (default_session name));
  proxy_id = some (some proxy);
}

unfoldable pub spawn_agent : Fleet → String → String → ℕ → Option AgentRecord → Reply
spawn_agent fleet name proxy now none = refused (not_found name) fleet
spawn_agent fleet name proxy now (some agent) =
    if state_eq agent.state void || state_eq agent.state failed
    then write_agent fleet name spawning agent.version (spawn_extra name proxy now)
    else refused (wrong_state agent.state) fleet

-- `spawnAgent`, phase 1.
unfoldable pub begin_spawn : Fleet → String → String → ℕ → Reply
unfolding spawn_agent
begin_spawn fleet name proxy now =
    if str_eq proxy ""
    then refused unassigned fleet
    else spawn_agent fleet name proxy now (get_agent fleet.agents name)

unfoldable pub write_placed :
    Fleet → AgentRecord → String → AgentState → (String → Extra) → Placement → Reply
write_placed fleet agent name state extra (unavailable error) = refused (no_proxy error) fleet
write_placed fleet agent name state extra (placed proxy) =
    write_agent fleet name state agent.version (extra proxy)

-- The shape of phase 1 of `resumeAgent`, `suspendAgent`, `reloadAgent` and `recoverAgent`: the
-- state is checked, then the proxy, and the intermediate state is written at the version read.
unfoldable pub begin_on :
    Fleet
    → String
    → (AgentRecord → Bool)
    → AgentState
    → (String → Extra)
    → Option AgentRecord
    → Reply
begin_on fleet name allowed state extra none = refused (not_found name) fleet
begin_on fleet name allowed state extra (some agent) =
    if allowed agent
    then write_placed fleet agent name state extra (require_proxy agent (some fleet.registered))
    else refused (wrong_state agent.state) fleet

abbrev pub touched_on : ℕ → String → Extra
touched_on now proxy = record (touched now) { proxy_id = some (some proxy) }

unfoldable pub begin_resume : Fleet → String → ℕ → Reply
begin_resume fleet name now =
    begin_on fleet name can_resume resuming (touched_on now) (get_agent fleet.agents name)

unfoldable pub begin_suspend : Fleet → String → ℕ → Reply
begin_suspend fleet name now =
    begin_on fleet name can_suspend suspending (λ proxy. touched now) (get_agent fleet.agents name)

unfoldable pub begin_reload : Fleet → String → ℕ → Reply
begin_reload fleet name now =
    begin_on fleet name can_suspend suspending (touched_on now) (get_agent fleet.agents name)

unfoldable pub begin_recover : Fleet → String → ℕ → Reply
begin_recover fleet name now =
    begin_on fleet name (λ a. state_eq a.state failed) spawning (λ proxy. touched now)
      (get_agent fleet.agents name)

-- A last phase: the record is written if the agent is still in the intermediate state, and else
-- left to whoever changed it.
unfoldable pub settle :
    Fleet → String → AgentState → AgentState → String → Extra → String → Option AgentRecord → Reply
settle fleet name from to interrupted extra event none = refused (not_found name) fleet
settle fleet name from to interrupted extra event (some latest) =
    if not (state_eq latest.state from)
    then done latest (log_event name interrupted fleet)
    else log_done name event (write_agent fleet name to latest.version extra)

unfoldable pub finalize_to_active : Fleet → String → AgentState → String → Extra → String → Reply
finalize_to_active fleet name from interrupted extra event =
    settle fleet name from active interrupted extra event (get_agent fleet.agents name)

-- What the last phases write, from the session id, the tmux session that phase 1 found and the count
-- of spawns that it read.
abbrev pub spawned_extra : Option String → ℕ → ℕ → Extra
spawned_extra session spawn_count now = record (touched now) {
  spawn_count = some (spawn_count + 1);
  last_context_pct = some (some 0);
  current_session_id = some session;
}

abbrev pub resumed_extra : Option String → String → ℕ → Extra
resumed_extra session tmux now = record (touched now) {
  tmux_session = some (some tmux);
  state_before_shutdown = some none;
  last_context_pct = some (some 0);
  current_session_id = some session;
}

abbrev pub reloaded_extra : String → Option String → ℕ → ℕ → Extra
reloaded_extra name session spawn_count now = record (touched now) {
  tmux_session = some (some (default_session name));
  reload_queued = some 0;
  reload_task = some none;
  spawn_count = some (spawn_count + 1);
  last_context_pct = some (some 0);
  current_session_id = some session;
}

abbrev pub recovered_extra : String → Option String → ℕ → ℕ → Extra
recovered_extra name session spawn_count now = record (touched now) {
  tmux_session = some (some (default_session name));
  spawn_count = some (spawn_count + 1);
  last_context_pct = some (some 0);
  current_session_id = some session;
}

unfoldable pub final_extra : Operation → String → Option String → String → ℕ → ℕ → Extra
final_extra spawn name session tmux spawn_count now = spawned_extra session spawn_count now
final_extra resume name session tmux spawn_count now = resumed_extra session tmux now
final_extra suspend name session tmux spawn_count now = touched now
final_extra reload name session tmux spawn_count now = reloaded_extra name session spawn_count now
final_extra recover name session tmux spawn_count now = recovered_extra name session spawn_count now

-- Phase 3 of each operation.
unfoldable pub finish_spawn : Fleet → String → Extra → Reply
finish_spawn fleet name extra =
    finalize_to_active fleet name spawning "spawn_interrupted" extra "spawned"

unfoldable pub finish_resume : Fleet → String → Extra → Reply
finish_resume fleet name extra =
    finalize_to_active fleet name resuming "resume_interrupted" extra "resumed"

unfoldable pub finish_suspend : Fleet → String → Extra → Reply
finish_suspend fleet name extra =
    settle fleet name suspending suspended "suspend_interrupted" extra "suspended"
      (get_agent fleet.agents name)

unfoldable pub finish_reload : Fleet → String → Extra → Reply
finish_reload fleet name extra =
    finalize_to_active fleet name suspending "reload_interrupted" extra "reloaded"

unfoldable pub finish_recover : Fleet → String → Extra → Reply
finish_recover fleet name extra =
    finalize_to_active fleet name spawning "recover_interrupted" extra "recovered"

unfoldable pub finish : Fleet → Operation → String → Extra → Reply
finish fleet spawn name extra = finish_spawn fleet name extra
finish fleet resume name extra = finish_resume fleet name extra
finish fleet suspend name extra = finish_suspend fleet name extra
finish fleet reload name extra = finish_reload fleet name extra
finish fleet recover name extra = finish_recover fleet name extra

abbrev pub failure_extra : String → ℕ → Extra
failure_extra reason now = record no_extra {
  failed_at = some (some now);
  failure_reason = some (some reason);
}

-- `if (latest && latest.state === …)` with the write of `failed` and its event.
unfoldable pub fail_from :
    Fleet → String → AgentState → String → String → ℕ → Option AgentRecord → Fleet
fail_from fleet name from reason event now none = fleet
fail_from fleet name from reason event now (some latest) =
    if state_eq latest.state from
    then fleet_of (
        log_done name event
          (write_agent fleet name failed latest.version (failure_extra reason now)))
    else fleet

-- The session could not be created (`spawnAgent`, `resumeAgent`).
unfoldable pub mark_failed : Fleet → String → AgentState → String → String → ℕ → Fleet
mark_failed fleet name from reason event now =
    fail_from fleet name from reason event now (get_agent fleet.agents name)

-- The watchdog's reason, for a timeout of whole seconds.
unfoldable pub timeout_reason : AgentState → ℕ → String
timeout_reason from timeout_ms =
    String.◌++◌ (state_name from)
      (String.◌++◌ " timeout (" (String.◌++◌ (show (timeout_ms / 1000)) "s)"))

abbrev pub in_state : AgentState → Option AgentRecord → Bool
in_state from none = false
in_state from (some a) = state_eq a.state from

unfoldable pub kill_stuck : Bool → String → String → Fleet → Fleet
kill_stuck stuck proxy tmux fleet =
    if stuck && not (str_eq proxy "" || str_eq tmux "")
    then send proxy (kill_session tmux) fleet
    else fleet

-- The body of the timer of `startWatchdog`: the agent fails, and its session is killed.
unfoldable pub watchdog : Fleet → String → AgentState → ℕ → String → String → ℕ → Fleet
unfolding kill_stuck
watchdog fleet name from timeout_ms proxy tmux now =
    kill_stuck (in_state from (get_agent fleet.agents name)) proxy tmux (
      mark_failed fleet name from (timeout_reason from timeout_ms)
        (String.◌++◌ (state_name from) "_timeout") now)
