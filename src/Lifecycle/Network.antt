-- ===== src/Lifecycle/Network.antt =====
-- src/orchestrator/network.ts: what a shutdown writes, and the restore after a restart. The proxies'
-- answers about sessions and the whole of `resumeAgent` are parameters; no other step runs in
-- between, as at the start of the process.
pub mod Shutdowns
pub mod Restarts
use agentic_collab.Common.{
  ℕ, zero, suc, ◌+◌, String, Bool, true, false, not, ◌&&◌, ◌||◌, Option, none, some, List, [], ◌∷◌,
  ◌++◌, str_eq, if◌then◌else◌, select, is_some,
}
use agentic_collab.Shared.Agent.{
  AgentState, suspending, resuming, active, idle, suspended, failed, AgentRecord, state_eq,
  is_running, session_name,
}
use agentic_collab.Database.Agents.{Extra, no_extra, get_agent}
use agentic_collab.Lifecycle.Fleet.{
  Fleet, Reply, done, refused, fleet_of, log_event, log_done, write_agent, touched, state_name,
}

abbrev pub shutdown_extra : AgentRecord → ℕ → Extra
shutdown_extra a now = record (touched now) {
  state_before_shutdown = some (some (state_name a.state));
}

-- One round of the loop in `shutdownAgents`; a write that throws is only logged.
unfoldable pub shutdown_agent : Fleet → ℕ → AgentRecord → Reply
shutdown_agent fleet now a =
    log_done a.name "shutdown_suspended"
      (write_agent fleet a.name suspended a.version (shutdown_extra a now))

abbrev pub counted : Reply → ℕ
counted (done a fleet) = 1
counted (refused e fleet) = 0

unfoldable pub shutdown_each : ℕ → List AgentRecord → Fleet → ℕ × Fleet
shutdown_each now [] fleet = (0, fleet)
shutdown_each now (a ∷ agents) fleet =
    let r = shutdown_agent fleet now a in
    let rest = shutdown_each now agents (fleet_of r) in (counted r + rest.0, rest.1)

unfoldable pub shutdown_agents : ℕ → Fleet → ℕ × Fleet
shutdown_agents now fleet = shutdown_each now (select is_running fleet.agents) fleet

-- What the first loop of `restoreAllAgents` has found so far.
pub record Survey : Type 0 where
  pub fleet : Fleet
  pub to_readopt : List AgentRecord
  pub to_restore : List AgentRecord

-- A write or a proxy call that throws there ends the function.
pub data Surveyed : Type 0 where
  surveyed : Survey → Surveyed
  aborted : Fleet → Surveyed

-- `agent.stateBeforeShutdown`, as a test.
abbrev pub is_set : Option String → Bool
is_set none = false
is_set (some s) = not (str_eq s "")

abbrev pub adopt_later : AgentRecord → Survey → Survey
adopt_later a s = record s { to_readopt = s.to_readopt ++ a ∷ [] }

abbrev pub restore_later : AgentRecord → Survey → Survey
restore_later a s = record s { to_restore = s.to_restore ++ a ∷ [] }

abbrev pub crash_extra : ℕ → Extra
crash_extra now = record no_extra {
  failed_at = some (some now);
  failure_reason = some (some "Crash recovery: tmux session missing");
}

abbrev pub crashed : AgentRecord → Survey → Reply → Surveyed
crashed a s (done r fleet) =
    surveyed (restore_later (record a { state = failed }) (record s { fleet = fleet }))
crashed a s (refused e fleet) = aborted fleet

unfoldable pub mark_crashed : ℕ → AgentRecord → Survey → Surveyed
mark_crashed now a s = crashed a s (
    log_done a.name "crash_detected"
      (write_agent s.fleet a.name failed a.version (crash_extra now)))

abbrev pub after_check : Survey → (Bool → Surveyed) → Option Bool → Surveyed
after_check s next none = aborted s.fleet
after_check s next (some there) = next there

-- `stateBeforeShutdown`, where it is `idle` or `active`; otherwise `active`.
abbrev pub restored_state : Option String → AgentState
restored_state none = active
restored_state (some s) = if str_eq s "idle" then idle else active

abbrev pub readopt_extra : ℕ → Extra
readopt_extra now = record (touched now) { state_before_shutdown = some none }

abbrev pub readopted : AgentRecord → ℕ × Survey → Reply → ℕ × Survey
readopted a (n, s) (done r fleet) = (suc n, record s { fleet = fleet })
readopted a (n, s) (refused e fleet) = (n, restore_later a s)

abbrev pub readopt_found : ℕ → AgentRecord → ℕ × Survey → Option AgentRecord → ℕ × Survey
readopt_found now a p none = p
readopt_found now a p (some current) = readopted a p (
    log_done a.name "session_readopted" (
      write_agent p.1.fleet a.name (restored_state a.state_before_shutdown) current.version
        (readopt_extra now)))

unfoldable pub readopt_agent : ℕ → AgentRecord → ℕ × Survey → ℕ × Survey
readopt_agent now a p = readopt_found now a p (get_agent p.1.fleet.agents a.name)

unfoldable pub readopt_each : ℕ → List AgentRecord → ℕ × Survey → ℕ × Survey
readopt_each now [] p = p
readopt_each now (a ∷ agents) p = readopt_each now agents (readopt_agent now a p)

abbrev pub update_found : String → Option AgentRecord → Extra → Fleet → Reply → Reply
update_found name none x fleet missing = missing
update_found name (some current) x fleet missing =
    write_agent fleet name current.state current.version x

-- A write by the state and version that the row has by now, where it is still there.
unfoldable pub rewrite_agent : String → Extra → AgentRecord → Fleet → Reply
rewrite_agent name x a fleet =
    update_found name (get_agent fleet.agents name) x fleet (done a fleet)

abbrev pub proxied : AgentRecord → List String → Fleet → Option Reply
proxied a [] fleet = none
proxied a (p ∷ ps) fleet =
    some (rewrite_agent a.name (record no_extra { proxy_id = some (some p) }) a fleet)

-- The proxy that an agent without one is given: the first; none where there is no proxy.
unfoldable pub assign_proxy : AgentRecord → Fleet → Option Reply
assign_proxy a fleet =
    if is_set a.proxy_id then some (done a fleet) else proxied a fleet.registered fleet

module _ (has_session : String → String → Option Bool) where
  -- `checkTmuxSession`; `none` where the proxy call rejects.
  abbrev pub session_on : AgentRecord → Option String → Option Bool
  session_on a none = some false
  session_on a (some proxy) =
      if str_eq proxy "" then some false else has_session proxy (session_name a)

  unfoldable pub check_tmux_session : AgentRecord → Option Bool
  check_tmux_session a = session_on a a.proxy_id

  unfoldable pub survey_agent : ℕ → AgentRecord → Survey → Surveyed
  survey_agent now a s =
      if state_eq a.state suspended && is_set a.state_before_shutdown
      then after_check s (λ there. surveyed (if there then adopt_later a s else restore_later a s))
          (check_tmux_session a)
      else if is_set a.proxy_id
          && (state_eq a.state active
              || (state_eq a.state idle
                  || (state_eq a.state suspending || state_eq a.state resuming)))
      then after_check s (λ there. if there then surveyed s else mark_crashed now a s)
          (check_tmux_session a)
      else surveyed s

  abbrev pub and_survey : (Survey → Surveyed) → Surveyed → Surveyed
  and_survey f (surveyed s) = f s
  and_survey f (aborted fleet) = aborted fleet

  unfoldable pub survey_agents : ℕ → List AgentRecord → Survey → Surveyed
  survey_agents now [] s = surveyed s
  survey_agents now (a ∷ agents) s = and_survey (survey_agents now agents) (survey_agent now a s)

module _ (resume_agent : String → Fleet → Reply) where
  abbrev pub failed_if_refused : String → Reply → Fleet
  failed_if_refused name (done r fleet) = fleet
  failed_if_refused name (refused e fleet) = log_event name "restore_failed" fleet

  -- What follows `resumeAgent`: the agent counts as restored before the last write.
  abbrev pub after_resume : AgentRecord → ℕ → Reply → ℕ × Fleet
  after_resume a n (refused e fleet) = (n, log_event a.name "restore_failed" fleet)
  after_resume a n (done r fleet) = (
    suc n,
    failed_if_refused a.name (
        rewrite_agent a.name (record no_extra { state_before_shutdown = some none }) a
          (log_event a.name "network_restored" fleet)),
  )

  abbrev pub resume_assigned : AgentRecord → ℕ → Reply → ℕ × Fleet
  resume_assigned a n (refused e fleet) = (n, log_event a.name "restore_failed" fleet)
  resume_assigned a n (done r fleet) = after_resume a n (resume_agent a.name fleet)

  abbrev pub restore_assigned : AgentRecord → ℕ → Fleet → Option Reply → ℕ × Fleet
  restore_assigned a n fleet none = (n, fleet)
  restore_assigned a n fleet (some r) = resume_assigned a n r

  unfoldable pub restore_agent : AgentRecord → ℕ × Fleet → ℕ × Fleet
  restore_agent a (n, fleet) = restore_assigned a n fleet (assign_proxy a fleet)

  unfoldable pub restore_each : List AgentRecord → ℕ × Fleet → ℕ × Fleet
  restore_each [] p = p
  restore_each (a ∷ agents) p = restore_each agents (restore_agent a p)

  abbrev pub restore_surveyed : ℕ → Surveyed → Option ℕ × Fleet
  restore_surveyed now (aborted fleet) = (none, fleet)
  restore_surveyed now (surveyed s) =
      let adopted = readopt_each now s.to_readopt (0, s) in
      let done_restores = restore_each adopted.1.to_restore (0, adopted.1.fleet) in
      (some (adopted.0 + done_restores.0), done_restores.1)

  -- `restoreAllAgents`: how many agents came back; none where it throws.
  unfoldable pub restore_all_agents : (String → String → Option Bool) → ℕ → Fleet → Option ℕ × Fleet
  restore_all_agents has_session now fleet = restore_surveyed now (
      survey_agents has_session now fleet.agents
        record { fleet = fleet; to_readopt = []; to_restore = [] })
