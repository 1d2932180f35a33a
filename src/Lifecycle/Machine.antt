-- ===== src/Lifecycle/Machine.antt =====
-- The state machine of an agent, and what one step of src/orchestrator/lifecycle.ts does to a table.
use agentic_collab.Common.{
  String, ◌≡◌, refl, sym, true, ◌||◌, some, List, update, arith, inl, inr, Bool-cases, subst,
}
use agentic_collab.Shared.Agent.{
  AgentState, void, spawning, resuming, suspending, active, idle, suspended, failed, AgentRecord,
  state_eq, can_suspend, can_resume,
}
use agentic_collab.Shared.Agent.Entity.{eq_of_state_eq}
use agentic_collab.Database.Agents.{Extra, get_agent, set_state, delete_agent_row, named, with_vars}
use agentic_collab.Database.Agents.Versions.{written, update_agent_state_found}
use agentic_collab.Lifecycle.Fleet.{
  Fleet, Reply, done, refused, fleet_of, log_done, write_agent, Operation, intermediate,
}

-- The state machine of an agent.
pub data IsMove : AgentState → AgentState → Type 0 where
  stays : (s : AgentState) → IsMove s s
  spawns : IsMove void spawning
  respawns : IsMove failed spawning
  resumes : IsMove suspended resuming
  recovers : IsMove failed resuming
  exits : IsMove active suspending
  exits_idle : IsMove idle suspending
  arrives : (o : Operation) → IsMove (intermediate o) active
  rests : IsMove suspending suspended
  fails : (o : Operation) → IsMove (intermediate o) failed
  is_killed : (s : AgentState) → IsMove s suspended
  wakes : IsMove idle active

-- What a step does to the table: nothing, one write of the agent's row along the state machine, its
-- deletion, or a captured variable, with or without a write of the row after it.
pub data Change (agents : List AgentRecord) (n : String) : List AgentRecord → Type 0 where
  same : Change agents n agents
  wrote :
      (a : AgentRecord) (s : AgentState) (x : Extra)
      → get_agent agents n ≡ some a
      → IsMove a.state s
      → Change agents n (written agents n s x a.version)
  removed : Change agents n (delete_agent_row agents n)
  noted :
      (a : AgentRecord) (vars : List (String × String))
      → get_agent agents n ≡ some a
      → Change agents n (update (named n) (with_vars vars) agents)
  noted_wrote :
      (a : AgentRecord) (vars : List (String × String)) (x : Extra)
      → get_agent agents n ≡ some a
      → Change agents n (written (update (named n) (with_vars vars) agents) n a.state x a.version)

pub agents-log_done :
    (n event : String) (r : Reply) → (fleet_of (log_done n event r)).agents ≡ (fleet_of r).agents
agents-log_done n event (done a f) = refl
agents-log_done n event (refused e f) = refl

pub write_agent_found :
    (fleet : Fleet) (n : String) (a : AgentRecord) (s : AgentState) (x : Extra)
    → get_agent fleet.agents n ≡ some a
    → write_agent fleet n s a.version x
      ≡ done (set_state s x a) (record fleet { agents = written fleet.agents n s x a.version })
unfolding write_agent
write_agent_found fleet n a s x h = rw (update_agent_state_found fleet.agents n s x a h) refl

pub write_agent-Change :
    (fleet : Fleet) (n : String) (a : AgentRecord) (s : AgentState) (x : Extra)
    → get_agent fleet.agents n ≡ some a
    → IsMove a.state s
    → Change fleet.agents n (fleet_of (write_agent fleet n s a.version x)).agents
write_agent-Change fleet n a s x h mv = rw (write_agent_found fleet n a s x h) (wrote a s x h mv)

-- What an operation on `n` leaves behind, whether it returns or throws.
abbrev pub Changes : Fleet → String → Reply → Type 0
Changes fleet n r = Change fleet.agents n (fleet_of r).agents

pub logged_change :
    (fleet : Fleet) (n event : String) (a : AgentRecord) (s : AgentState) (x : Extra)
    → get_agent fleet.agents n ≡ some a
    → IsMove a.state s
    → Changes fleet n (log_done n event (write_agent fleet n s a.version x))
logged_change fleet n event a s x h mv =
    rw (agents-log_done n event (write_agent fleet n s a.version x))
      (write_agent-Change fleet n a s x h mv)

pub startable : (s : AgentState) → (state_eq s void || state_eq s failed) ≡ true → IsMove s spawning
startable s h = elim (Bool-cases (state_eq s void)) [
  | inl e ↦ subst (λ t. IsMove t spawning) (sym (eq_of_state_eq s void e)) spawns
  | inr e ↦ subst (λ t. IsMove t spawning) (sym (eq_of_state_eq s failed (ground arith))) respawns
]

pub resumable : (a : AgentRecord) → can_resume a ≡ true → IsMove a.state resuming
unfolding can_resume
resumable a h = elim (Bool-cases (state_eq a.state suspended)) [
  | inl e ↦ subst (λ t. IsMove t resuming) (sym (eq_of_state_eq a.state suspended e)) resumes
  | inr e ↦
      subst (λ t. IsMove t resuming) (sym (eq_of_state_eq a.state failed (rw e at h))) recovers
]

pub suspendable : (a : AgentRecord) → can_suspend a ≡ true → IsMove a.state suspending
unfolding can_suspend
suspendable a h = elim (Bool-cases (state_eq a.state active)) [
  | inl e ↦ subst (λ t. IsMove t suspending) (sym (eq_of_state_eq a.state active e)) exits
  | inr e ↦
      subst (λ t. IsMove t suspending) (sym (eq_of_state_eq a.state idle (rw e at h))) exits_idle
]
