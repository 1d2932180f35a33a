-- ===== src/Lifecycle/Network/Restarts.antt =====
-- A clean restart: src/orchestrator/network.ts brings an agent whose session lives on back to the
-- state that it had.
use agentic_collab.Common.{
  ◌≡◌, refl, ap, ◌∙◌, ℕ, ◌+◌, String, Bool, true, false, Option, none, some, str_eq, if◌then◌else◌,
  map, IsDistinct,
}
use agentic_collab.Shared.Agent.{
  AgentState, void, spawning, resuming, suspending, active, idle, suspended, failed, AgentRecord,
  state_eq, is_running, session_name,
}
use agentic_collab.Database.Agents.{get_agent, set_state}
use agentic_collab.Database.Agents.Versions.{get-written_self}
use agentic_collab.Lifecycle.Fleet.{Fleet, state_name}
use agentic_collab.Lifecycle.Machine.{write_agent_found}
use agentic_collab.Lifecycle.Network.{
  shutdown_agents, Survey, surveyed, adopt_later, restore_later, after_check, restored_state,
  readopt_extra, readopt_agent, check_tmux_session, survey_agent,
}
use agentic_collab.Lifecycle.Network.Shutdowns.{shut, shutdown_row}

-- The state that a restart gives back: idle stays idle, and every other running state is active.
abbrev pub back : AgentState → AgentState
back s = if state_eq s idle then idle else active

restored-state_name : (s : AgentState) → restored_state (some (state_name s)) ≡ back s
restored-state_name void = refl
restored-state_name spawning = refl
restored-state_name resuming = refl
restored-state_name suspending = refl
restored-state_name active = refl
restored-state_name idle = refl
restored-state_name suspended = refl
restored-state_name failed = refl

state_name_set : (s : AgentState) → str_eq (state_name s) "" ≡ false
state_name_set void = refl
state_name_set spawning = refl
state_name_set resuming = refl
state_name_set suspending = refl
state_name_set active = refl
state_name_set idle = refl
state_name_set suspended = refl
state_name_set failed = refl

-- The row of an agent after the restart.
pub record IsBack (a c : AgentRecord) : Type 0 where
  pub state_back : c.state ≡ back a.state
  pub mark_cleared : c.state_before_shutdown ≡ none
  pub two_writes : c.version ≡ a.version + 1 + 1
  pub session_kept : c.current_session_id ≡ a.current_session_id
  pub pane_kept : c.tmux_session ≡ a.tmux_session
  pub proxy_kept : c.proxy_id ≡ a.proxy_id

back_row :
    (now later : ℕ) (a : AgentRecord)
    → IsBack a (set_state (back a.state) (readopt_extra later) (shut now a))
unfolding set_state
back_row now later a = record {
  state_back = refl;
  mark_cleared = refl;
  two_writes = refl;
  session_kept = refl;
  pane_kept = refl;
  proxy_kept = refl;
}

readopt_stored :
    (later k : ℕ) (s : Survey) (b : AgentRecord)
    → get_agent s.fleet.agents b.name ≡ some b
    → get_agent (readopt_agent later b (k, s)).1.fleet.agents b.name
      ≡ some (set_state (restored_state b.state_before_shutdown) (readopt_extra later) b)
unfolding readopt_agent
readopt_stored later k s b h =
    rw
      (
        h,
        write_agent_found s.fleet b.name b (restored_state b.state_before_shutdown)
            (readopt_extra later) h,
      )
      (get-written_self s.fleet.agents b.name (restored_state b.state_before_shutdown)
        (readopt_extra later) b h)

readopt_shut :
    (now later k : ℕ) (s : Survey) (a : AgentRecord)
    → get_agent s.fleet.agents a.name ≡ some (shut now a)
    → get_agent (readopt_agent later (shut now a) (k, s)).1.fleet.agents a.name
      ≡ some (set_state (back a.state) (readopt_extra later) (shut now a))
unfolding set_state
readopt_shut now later k s a h =
    readopt_stored later k s (shut now a) h
    ∙ ap (λ t. some (set_state t (readopt_extra later) (shut now a))) (restored-state_name a.state)

module _ (has_session : String → String → Option Bool) where
  survey_shut :
      (now later : ℕ) (s : Survey) (a : AgentRecord)
      → check_tmux_session has_session a ≡ some true
      → survey_agent has_session later (shut now a) s ≡ surveyed (adopt_later (shut now a) s)
  unfolding survey_agent check_tmux_session set_state session_name
  survey_shut now later s a h = rw (state_name_set a.state) (
      ap
        (after_check s (λ there.
          surveyed (if there then adopt_later (shut now a) s else restore_later (shut now a) s)))
        h)

  -- In a table without two agents of one name, a running agent is shut down with all the others and
  -- then, with its session still there, surveyed and readopted: it is idle if it was idle, else
  -- active, with the mark of the shutdown cleared, two writes later, and on the same proxy and pane
  -- with the same session.
  pub restart_keeps_agent :
      (now later k : ℕ) (fleet : Fleet) (s : Survey) (a : AgentRecord)
      → IsDistinct (map (λ (b : AgentRecord). b.name) fleet.agents)
      → get_agent fleet.agents a.name ≡ some a
      → is_running a ≡ true
      → check_tmux_session has_session a ≡ some true
      → s.fleet ≡ (shutdown_agents now fleet).1
      → (b : AgentRecord) × (get_agent s.fleet.agents a.name ≡ some b)
        × (survey_agent has_session later b s ≡ surveyed (adopt_later b s))
        × (c : AgentRecord) × (get_agent (readopt_agent later b (k, s)).1.fleet.agents a.name
            ≡ some c)
        × IsBack a c
  restart_keeps_agent now later k fleet s a d h r t e =
      let stored : get_agent s.fleet.agents a.name ≡ some (shut now a) =
        ap (λ f. get_agent f.agents a.name) e ∙ shutdown_row now fleet a.name a d h r in
      (
        shut now a,
        stored,
        survey_shut now later s a t,
        set_state (back a.state) (readopt_extra later) (shut now a),
        readopt_shut now later k s a stored,
        back_row now later a,
      )
