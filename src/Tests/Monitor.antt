-- ===== src/Tests/Monitor.antt =====
-- The health monitor (src/orchestrator/health-monitor.ts) at concrete polls.
use agentic_collab.Common.{◌≡◌, refl, ℕ, false, none, some, [], ◌∷◌, Text, codes}
use agentic_collab.Shared.Agent.{AgentRecord, active}
use agentic_collab.Lifecycle.Fleet.{Fleet}
use agentic_collab.HealthMonitor.{Poll, Signal, active_pattern, no_pattern, Watch, new_watch}
use agentic_collab.HealthMonitor.Idle.{History, quiet_run}
use agentic_collab.Tests.Shared.{bob}

abbrev active_bob : AgentRecord
active_bob = record bob { state = active }

abbrev bob_alone : Fleet
bob_alone = record {
  agents = active_bob ∷ [];
  registered = [];
  events = [];
  sent = [];
  tokens = [];
}

abbrev poll_at : ℕ → Signal → Text → Poll
poll_at now signal snapshot = record {
  now = now;
  activity = none;
  has_detection = false;
  pane = some snapshot;
  signal = signal;
  snapshot = snapshot;
}

-- Work, and then the same pane three times.
abbrev earlier : History
earlier =
    poll_at 15000 no_pattern (codes "$")
    ∷ poll_at 13000 no_pattern (codes "$")
    ∷ poll_at 1000 active_pattern (codes "$")
    ∷ []

abbrev latest : Poll
latest = poll_at 17000 no_pattern (codes "$")

-- The entries after those polls.
abbrev watched : Watch
watched = record new_watch {
  last_pane_snapshot = some (codes "$");
  unchanged_count = 2;
  last_activity_detected = 1000;
}

three_quiet : quiet_run (latest ∷ earlier) ≡ 3
unfolding quiet_run
three_quiet = refl
