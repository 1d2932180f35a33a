-- ===== src/HealthMonitor.antt =====
-- src/orchestrator/health-monitor.ts: when an agent is taken for idle, for active again, or for
-- lost. The maps of the class are a record for each agent; what the patterns of the detection config
-- match in a pane, and the pane's snapshot, are inputs of a poll.
pub mod Idle
pub mod Polls
use agentic_collab.Common.{
  ℕ, zero, suc, ◌+◌, ◌-◌, String, Bool, true, false, not, ◌&&◌, ◌||◌, Option, none, some, List, [],
  ◌∷◌, ◌++◌, ltb, leb, ◌==◌, Text, text_eq, if◌then◌else◌, is_some, or_else,
}
use agentic_collab.Shared.Agent.{AgentRecord, AgentState, active, idle, failed, state_eq}
use agentic_collab.Database.Agents.{Extra, no_extra, get_agent}
use agentic_collab.Lifecycle.Fleet.{
  Fleet, Reply, done, refused, fleet_of, log_done, write_agent, touched,
}

abbrev pub failure_threshold : ℕ
failure_threshold = 3

-- The entries of one agent in the maps of `HealthMonitor`; a missing count or time is 0.
pub record Watch : Type 0 where
  pub last_pane_snapshot : Option Text
  pub unchanged_count : ℕ
  pub last_activity_detected : ℕ
  pub last_activity_ts : Option ℕ
  pub consecutive_failures : ℕ
  pub failure_snapshot : Option Text

abbrev pub new_watch : Watch
new_watch = record {
  last_pane_snapshot = none;
  unchanged_count = 0;
  last_activity_detected = 0;
  last_activity_ts = none;
  consecutive_failures = 0;
  failure_snapshot = none;
}

-- Which pattern of the detection config matched first, the active ones before the idle ones.
pub data Signal : Type 0 where
  active_pattern idle_pattern no_pattern : Signal

abbrev pub seen_active : ℕ → Watch → Bool × Watch
seen_active now w = (false, record w { unchanged_count = 0; last_activity_detected = now })

abbrev pub seen_quiet : ℕ → Watch → Bool × Watch
seen_quiet threshold w =
    (leb threshold (w.unchanged_count + 1), record w { unchanged_count = w.unchanged_count + 1 })

abbrev pub compare_panes : ℕ → ℕ → Text → Option Text → Watch → Bool × Watch
compare_panes threshold now snapshot none w = (false, record w { unchanged_count = 0 })
compare_panes threshold now snapshot (some prev) w =
    if text_eq snapshot prev then seen_quiet threshold w else seen_active now w

unfoldable pub by_signal : ℕ → ℕ → Text → Option Text → Signal → Watch → Bool × Watch
by_signal threshold now snapshot prev active_pattern w = seen_active now w
by_signal threshold now snapshot prev idle_pattern w = seen_quiet threshold w
by_signal threshold now snapshot prev no_pattern w = compare_panes threshold now snapshot prev w

-- `checkScreenDiff`: whether the agent appears idle.
unfoldable pub check_screen_diff : ℕ → ℕ → Signal → Text → Watch → Bool × Watch
check_screen_diff threshold now signal snapshot w =
    by_signal threshold now snapshot w.last_pane_snapshot signal
      (record w { last_pane_snapshot = some snapshot })

-- A write of the state that the row has by now, with its event.
abbrev pub move_if :
    AgentState → AgentState → String → ℕ → Fleet → String → Option AgentRecord → Fleet
move_if from to event now fleet name none = fleet
move_if from to event now fleet name (some current) =
    if state_eq current.state from
    then fleet_of (log_done name event (write_agent fleet name to current.version (touched now)))
    else fleet

-- `handleIdleTransitions`, for the record that the poll read and the time of the last change.
unfoldable pub handle_idle_transitions : ℕ → ℕ → ℕ → AgentRecord → Bool → Fleet → Fleet
handle_idle_transitions grace now last_activity agent is_idle fleet =
    if state_eq agent.state active && is_idle
    then if ltb (now - last_activity) grace
      then fleet
      else move_if active idle "idle_detected" now fleet agent.name
          (get_agent fleet.agents agent.name)
    else if state_eq agent.state idle && not is_idle
    then move_if idle active "activity_detected" now fleet agent.name
        (get_agent fleet.agents agent.name)
    else fleet

abbrev pub health_extra : ℕ → String → Extra
health_extra now reason = record no_extra {
  failed_at = some (some now);
  failure_reason = some (some reason);
}

-- `capturePaneOutput` on a proxy's answer: the pane, none where there is none, and whether the
-- agent is to be marked failed.
unfoldable pub capture_result : Option Text → Watch → Bool × Watch
capture_result (some pane) w = (false, record w { consecutive_failures = 0 })
capture_result none w =
    if leb failure_threshold (w.consecutive_failures + 1)
    then (
      true,
      record w {
        consecutive_failures = 0;
        failure_snapshot = some (or_else w.last_pane_snapshot []);
      },
    )
    else (false, record w { consecutive_failures = w.consecutive_failures + 1 })

-- The write at the version that the poll read; where it throws, the counter is not cleared.
abbrev pub kept_count : Watch → Watch → Reply → Watch × Fleet
kept_count before after (done a fleet) = (after, fleet)
kept_count before after (refused e fleet) =
    (record after { consecutive_failures = before.consecutive_failures + 1 }, fleet)

unfoldable pub capture_pane_output :
    ℕ → String → AgentRecord → Option Text → Watch → Fleet → Option Text × (Watch × Fleet)
capture_pane_output now reason agent answer w fleet =
    let r = capture_result answer w in
    (
      answer,
      if r.0
          then kept_count w r.1 (
              log_done agent.name "health_check_failed"
                (write_agent fleet agent.name failed agent.version (health_extra now reason)))
          else (r.1, fleet),
    )

-- One agent in `pollActiveAgents`: what the proxy answers about the pane's last activity and its
-- text, and what the detection makes of the text.
pub record Poll : Type 0 where
  pub now : ℕ
  pub activity : Option ℕ
  pub has_detection : Bool
  pub pane : Option Text
  pub signal : Signal
  pub snapshot : Text

abbrev pub same_time : Option ℕ → ℕ → Bool
same_time none t = false
same_time (some s) t = t == s

unfoldable pub is_quiet : Poll → Watch → Bool
is_quiet p w = elim p.activity [
  | none ↦ false
  | some t ↦ same_time w.last_activity_ts t && not p.has_detection
]

unfoldable pub note_activity : Option ℕ → Watch → Watch
note_activity none w = w
note_activity (some t) w = record w { last_activity_ts = some t }

abbrev pub judge : ℕ → ℕ → Poll → AgentRecord → Watch → Fleet → Watch × Fleet
judge threshold grace p agent w fleet =
    let r = check_screen_diff threshold p.now p.signal p.snapshot w in
    (r.1, handle_idle_transitions grace p.now r.1.last_activity_detected agent r.0 fleet)

abbrev pub judge_if : ℕ → ℕ → Poll → AgentRecord → Option Text × (Watch × Fleet) → Watch × Fleet
judge_if threshold grace p agent (none, s) = s
judge_if threshold grace p agent (some pane, (w, fleet)) = judge threshold grace p agent w fleet

unfoldable pub poll_active_agent :
    ℕ → ℕ → String → Poll → AgentRecord → Watch → Fleet → Watch × Fleet
poll_active_agent threshold grace reason p agent w fleet =
    let w' = note_activity p.activity w in
    if is_quiet p w
    then (w', handle_idle_transitions grace p.now w'.last_activity_detected agent true fleet)
    else judge_if threshold grace p agent (capture_pane_output p.now reason agent p.pane w' fleet)
