-- ===== src/Tests/Network.antt =====
-- The restart of src/orchestrator/network.ts at a concrete fleet.
use agentic_collab.Common.{◌≡◌, refl, String, Bool, true, Option, some, [], ◌∷◌}
use agentic_collab.Shared.Agent.{AgentRecord, idle, is_running}
use agentic_collab.Database.Agents.{get_agent}
use agentic_collab.Lifecycle.Fleet.{Fleet}
use agentic_collab.Lifecycle.Network.{
  Survey, surveyed, adopt_later, shutdown_agents, survey_agent, check_tmux_session, readopt_agent,
}
use agentic_collab.Lifecycle.Network.Restarts.{IsBack, restart_keeps_agent}
use agentic_collab.Tests.Shared.{bob}

abbrev idle_bob : AgentRecord
idle_bob = record bob { state = idle; proxy_id = some "p1" }

abbrev one_agent : Fleet
one_agent = record {
  agents = idle_bob ∷ [];
  registered = "p1" ∷ [];
  events = [];
  sent = [];
  tokens = [];
}

abbrev there : String → String → Option Bool
there proxy session = some true

abbrev shut_down : Survey
shut_down = record { fleet = (shutdown_agents 5 one_agent).1; to_readopt = []; to_restore = [] }

bob_found : get_agent one_agent.agents idle_bob.name ≡ some idle_bob
unfolding get_agent
bob_found = refl

bob_runs : is_running idle_bob ≡ true
unfolding is_running
bob_runs = refl

bob_there : check_tmux_session there idle_bob ≡ some true
unfolding check_tmux_session
bob_there = refl

restart_keeps_agent_example :
    (b : AgentRecord) × (get_agent shut_down.fleet.agents idle_bob.name ≡ some b)
    × (survey_agent there 9 b shut_down ≡ surveyed (adopt_later b shut_down))
    × (c : AgentRecord) × (get_agent (readopt_agent 9 b (0, shut_down)).1.fleet.agents idle_bob.name
        ≡ some c)
    × IsBack idle_bob c
restart_keeps_agent_example =
    restart_keeps_agent there 5 9 0 one_agent shut_down idle_bob (tt, tt) bob_found bob_runs
      bob_there refl
