-- ===== src/Lifecycle/Races.antt =====
-- Operations of src/orchestrator/lifecycle.ts that meet on one agent.
use agentic_collab.Common.{
  ℕ, String, ◌≡◌, ◌≢◌, refl, sym, Bool, true, false, ◌||◌, some, str_eq, eq_iff, arith, inl, inr,
  Bool-cases, subst,
}
use agentic_collab.Shared.Agent.{
  AgentState, void, spawning, resuming, suspending, active, suspended, failed, AgentRecord,
  state_eq, is_transitioning, can_suspend, can_resume,
}
use agentic_collab.Shared.Agent.Entity.{state_eq_refl}
use agentic_collab.Database.Agents.{Extra, get_agent, set_state}
use agentic_collab.Database.Agents.Versions.{written-IsUpdate}
use agentic_collab.Lifecycle.Fleet.{
  Fleet, done, refused, wrong_state, fleet_of, log_event, log_done, write_agent, Operation, spawn,
  resume, suspend, reload, recover, intermediate,
}
use agentic_collab.Lifecycle.Phases.{
  spawn_agent, begin_spawn, begin_on, begin_resume, begin_suspend, begin_reload, begin_recover,
  settle, finalize_to_active, finish, finish_spawn, finish_resume, finish_suspend, finish_reload,
  finish_recover, fail_from, mark_failed, failure_extra, timeout_reason, kill_stuck, watchdog,
}
use agentic_collab.Lifecycle.Machine.{write_agent_found, agents-log_done}
use agentic_collab.Lifecycle.Moves.{agents-kill_stuck}

module _ (fleet : Fleet) (n : String) (a : AgentRecord)
    (h : get_agent fleet.agents n ≡ some a) where
  begin_on_refused :
      (allowed : AgentRecord → Bool) (s : AgentState) (extra : String → Extra)
      → allowed a ≡ false
      → begin_on fleet n allowed s extra (get_agent fleet.agents n)
        ≡ refused (wrong_state a.state) fleet
  unfolding begin_on
  begin_on_refused allowed s extra e = rw (h, begin_on) (rw e refl)

  pub begin_spawn_refused :
      (proxy : String) (now : ℕ)
      → proxy ≢ ""
      → (state_eq a.state void || state_eq a.state failed) ≡ false
      → begin_spawn fleet n proxy now ≡ refused (wrong_state a.state) fleet
  unfolding begin_spawn spawn_agent
  begin_spawn_refused proxy now d e = elim (Bool-cases (str_eq proxy "")) [
    | inl k ↦ absurd (d ((eq_iff proxy "").0 k))
    | inr k ↦ rw (k, h, e) refl
  ]

abbrev target : Operation → AgentState
target spawn = active
target resume = active
target suspend = suspended
target reload = active
target recover = active

-- While an agent is in an intermediate state (spawning, resuming or suspending), a spawn that names
-- a proxy, a resume, a suspend, an immediate reload and a recovery of it are refused and change
-- nothing.
pub transitioning_refuses :
    (fleet : Fleet) (n proxy : String) (now : ℕ) (a : AgentRecord)
    → get_agent fleet.agents n ≡ some a
    → is_transitioning a ≡ true
    → proxy ≢ ""
    → (begin_spawn fleet n proxy now ≡ refused (wrong_state a.state) fleet)
      × (begin_resume fleet n now ≡ refused (wrong_state a.state) fleet)
      × (begin_suspend fleet n now ≡ refused (wrong_state a.state) fleet)
      × (begin_reload fleet n now ≡ refused (wrong_state a.state) fleet)
      × (begin_recover fleet n now ≡ refused (wrong_state a.state) fleet)
unfolding begin_resume begin_suspend begin_reload begin_recover is_transitioning can_suspend
    can_resume
transitioning_refuses fleet n proxy now a h t d = (
  begin_spawn_refused fleet n a h proxy now d (ground arith),
  begin_on_refused fleet n a h can_resume resuming _ (ground arith),
  begin_on_refused fleet n a h can_suspend suspending _ (ground arith),
  begin_on_refused fleet n a h can_suspend suspending _ (ground arith),
  begin_on_refused fleet n a h (λ b. state_eq b.state failed) spawning _ (ground arith),
)

module _ (fleet : Fleet) (n : String) (a : AgentRecord)
    (h : get_agent fleet.agents n ≡ some a) where
  pub stored_written :
      (event : String) (s : AgentState) (x : Extra)
      → get_agent (fleet_of (log_done n event (write_agent fleet n s a.version x))).agents n
        ≡ some (set_state s x a)
  stored_written event s x =
      rw (agents-log_done n event (write_agent fleet n s a.version x))
        (rw (write_agent_found fleet n a s x h) (written-IsUpdate fleet.agents n s x a h).stored)

  settle_elsewhere :
      (from to : AgentState) (interrupted : String) (x : Extra) (event : String)
      → state_eq a.state from ≡ false
      → settle fleet n from to interrupted x event (get_agent fleet.agents n)
        ≡ done a (log_event n interrupted fleet)
  unfolding settle
  settle_elsewhere from to interrupted x event e = rw (h, settle) (rw e refl)

  finish_elsewhere :
      (op : Operation) (x : Extra)
      → state_eq a.state (intermediate op) ≡ false
      → (event : String) × (finish fleet op n x ≡ done a (log_event n event fleet))
  unfolding finish finish_spawn finish_resume finish_suspend finish_reload finish_recover
      finalize_to_active
  finish_elsewhere spawn x e = (_, settle_elsewhere spawning active _ x _ e)
  finish_elsewhere resume x e = (_, settle_elsewhere resuming active _ x _ e)
  finish_elsewhere suspend x e = (_, settle_elsewhere suspending suspended _ x _ e)
  finish_elsewhere reload x e = (_, settle_elsewhere suspending active _ x _ e)
  finish_elsewhere recover x e = (_, settle_elsewhere spawning active _ x _ e)

  settle_there :
      (from to : AgentState) (interrupted : String) (x : Extra) (event : String)
      → state_eq a.state from ≡ true
      → get_agent
          (fleet_of (settle fleet n from to interrupted x event (get_agent fleet.agents n))).agents
          n
        ≡ some (set_state to x a)
  unfolding settle
  settle_there from to interrupted x event e = rw (h, settle) (rw e (stored_written event to x))

  -- Where phase 3 of an operation leads.
  pub finish_there :
      (op : Operation) (x : Extra)
      → state_eq a.state (intermediate op) ≡ true
      → get_agent (fleet_of (finish fleet op n x)).agents n ≡ some (set_state (target op) x a)
  unfolding finish finish_spawn finish_resume finish_suspend finish_reload finish_recover
      finalize_to_active
  finish_there spawn x e = settle_there spawning active _ x _ e
  finish_there resume x e = settle_there resuming active _ x _ e
  finish_there suspend x e = settle_there suspending suspended _ x _ e
  finish_there reload x e = settle_there suspending active _ x _ e
  finish_there recover x e = settle_there spawning active _ x _ e

  watchdog_elsewhere :
      (op : Operation) (timeout_ms : ℕ) (proxy tmux : String) (now : ℕ)
      → state_eq a.state (intermediate op) ≡ false
      → watchdog fleet n (intermediate op) timeout_ms proxy tmux now ≡ fleet
  unfolding watchdog kill_stuck mark_failed fail_from
  watchdog_elsewhere op timeout_ms proxy tmux now e = rw (h, fail_from) (rw e refl)

  pub watchdog_there :
      (op : Operation) (timeout_ms : ℕ) (proxy tmux : String) (now : ℕ)
      → state_eq a.state (intermediate op) ≡ true
      → get_agent (watchdog fleet n (intermediate op) timeout_ms proxy tmux now).agents n
        ≡ some
            (set_state failed (failure_extra (timeout_reason (intermediate op) timeout_ms) now) a)
  unfolding watchdog mark_failed fail_from
  watchdog_there op timeout_ms proxy tmux now e =
      rw agents-kill_stuck (rw (h, fail_from) (rw e (stored_written _ failed _)))

pub state_after : (s : AgentState) (x : Extra) (a : AgentRecord) → (set_state s x a).state ≡ s
unfolding set_state
state_after s x a = refl

left_behind :
    (op : Operation) (x : Extra) (a : AgentRecord)
    → state_eq (set_state (target op) x a).state (intermediate op) ≡ false
left_behind op x a = rw state_after (ground arith)

failed_elsewhere :
    (op : Operation) (x : Extra) (a : AgentRecord)
    → state_eq (set_state failed x a).state (intermediate op) ≡ false
failed_elsewhere op x a = rw state_after (ground arith)

-- If the watchdog of an operation finds the agent in the operation's intermediate state, and the
-- operation's last phase comes directly after it, with no other step between, the last phase returns
-- the failed record and changes no row.
pub finish_after_watchdog :
    (fleet : Fleet) (n : String) (a : AgentRecord) (op : Operation) (timeout_ms : ℕ)
    (proxy tmux : String) (now : ℕ) (x : Extra)
    → get_agent fleet.agents n ≡ some a
    → a.state ≡ intermediate op
    → let fleet' = watchdog fleet n (intermediate op) timeout_ms proxy tmux now in
      (r : AgentRecord) × (event : String) × (r.state ≡ failed)
      × (finish fleet' op n x ≡ done r (log_event n event fleet'))
finish_after_watchdog fleet n a op timeout_ms proxy tmux now x h e =
    let here : state_eq a.state (intermediate op) ≡ true =
      subst (λ s. state_eq s (intermediate op) ≡ true) (sym e) (state_eq_refl (intermediate op)) in
    let stored = watchdog_there fleet n a h op timeout_ms proxy tmux now here in
    let (event, run) = finish_elsewhere _ n _ stored op x (failed_elsewhere op _ a) in
    (_, event, state_after failed _ a, run)

-- If the last phase of an operation finds the agent in the operation's intermediate state, and the
-- operation's watchdog comes directly after it, with no other step between, the watchdog does
-- nothing: it neither fails the agent nor kills its session.
pub watchdog_after_finish :
    (fleet : Fleet) (n : String) (a : AgentRecord) (op : Operation) (timeout_ms : ℕ)
    (proxy tmux : String) (now : ℕ) (x : Extra)
    → get_agent fleet.agents n ≡ some a
    → a.state ≡ intermediate op
    → watchdog (fleet_of (finish fleet op n x)) n (intermediate op) timeout_ms proxy tmux now
      ≡ fleet_of (finish fleet op n x)
watchdog_after_finish fleet n a op timeout_ms proxy tmux now x h e =
    let here : state_eq a.state (intermediate op) ≡ true =
      subst (λ s. state_eq s (intermediate op) ≡ true) (sym e) (state_eq_refl (intermediate op)) in
    watchdog_elsewhere _ n _ (finish_there fleet n a h op x here) op timeout_ms proxy tmux now
      (left_behind op x a)
