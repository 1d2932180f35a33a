-- ===== src/HealthMonitor/Polls.antt =====
-- What one fast poll of src/orchestrator/health-monitor.ts makes of an agent.
use agentic_collab.Common.{◌≡◌, ℕ, ◌-◌, Bool, ◌&&◌, leb, if◌then◌else◌}
use agentic_collab.Shared.Agent.{AgentRecord, active, idle, state_eq}
use agentic_collab.Lifecycle.Fleet.{Fleet}
use agentic_collab.HealthMonitor.{Watch}
use agentic_collab.HealthMonitor.Idle.{History, previous, quiet_run, last_change, moved}

-- The entries of an agent agree with the polls that captured its pane, on what a poll reads of them.
pub record IsWatching (w : Watch) (ps : History) : Type 0 where
  pub snapshot : w.last_pane_snapshot ≡ previous ps
  pub count : w.unchanged_count ≡ quiet_run ps
  pub change : w.last_activity_detected ≡ last_change ps

-- What becomes of an agent that was found waiting, or not, and last seen to work at `last`.
abbrev pub after_poll : ℕ → ℕ → ℕ → Bool → AgentRecord → Fleet → Fleet
after_poll grace now last waiting a fleet =
    if state_eq a.state active
    then (if waiting && leb grace (now - last)
        then moved idle "idle_detected" now a fleet
        else fleet)
    else if state_eq a.state idle
    then (if waiting then fleet else moved active "activity_detected" now a fleet)
    else fleet
