-- ===== src/Lifecycle/Stops.antt =====
-- `killAgent` of src/orchestrator/lifecycle.ts, and what a kill or a timeout does not stop.
use agentic_collab.Common.{
  ℕ, String, ◌≡◌, ◌≢◌, refl, true, false, ◌||◌, Option, none, some, str_eq, eq_iff, arith, inl, inr,
  Bool-cases, ◌⊎◌, ◌==◌, ==_iff, false_ne_true, subst,
}
use agentic_collab.Shared.Agent.{
  AgentState, void, spawning, active, suspended, failed, AgentRecord, placed, state_eq,
  session_name, require_proxy,
}
use agentic_collab.Shared.Agent.Entity.{state_eq_refl}
use agentic_collab.Database.Agents.{Extra, get_agent, set_state, version_conflict}
use agentic_collab.Database.Agents.Versions.{written, written-IsUpdate, update_agent_state_stale}
use agentic_collab.Lifecycle.Fleet.{
  Fleet, done, refused, database, log_done, write_agent, fleet_of, log_event, send, kill_session,
  spawn, Answer, succeeded, unsuccessful, rejected,
}
use agentic_collab.Lifecycle.Phases.{
  begin_spawn, spawn_agent, spawn_extra, finish, final_extra, watchdog,
}
use agentic_collab.Lifecycle.Single.{kill_on, kill_placed, after_kill, kill_agent, killed_extra}
use agentic_collab.Lifecycle.Machine.{write_agent_found}
use agentic_collab.Lifecycle.Races.{finish_there, watchdog_there, state_after}

-- The agent is suspended and has no session, and the rest of the fleet is as it was.
pub record IsKilled (fleet : Fleet) (n : String) (r : AgentRecord) (fleet' : Fleet) : Type 0 where
  pub state : r.state ≡ suspended
  pub tmux_session : r.tmux_session ≡ none
  pub current_session_id : r.current_session_id ≡ none
  pub stored : get_agent fleet'.agents n ≡ some r
  pub others : (m : String) → n ≢ m → get_agent fleet'.agents m ≡ get_agent fleet.agents m
  pub sent : fleet'.sent ≡ fleet.sent

abbrev killed_fleet : Fleet → String → ℕ → AgentRecord → Fleet
killed_fleet fleet n now a =
    log_event n "killed"
      (record fleet { agents = written fleet.agents n suspended (killed_extra now) a.version })

killed :
    (fleet : Fleet) (n : String) (now : ℕ) (a : AgentRecord)
    → get_agent fleet.agents n ≡ some a
    → IsKilled fleet n (set_state suspended (killed_extra now) a) (killed_fleet fleet n now a)
unfolding set_state
killed fleet n now a h =
    let u = written-IsUpdate fleet.agents n suspended (killed_extra now) a h in
    record {
      state = refl;
      tmux_session = refl;
      current_session_id = refl;
      stored = u.stored;
      others = u.others;
      sent = refl;
    }

-- What a kill asks of the proxy.
abbrev pub told : Fleet → String → AgentRecord → Fleet
told fleet proxy a = send proxy (kill_session (session_name a)) fleet

write_stale :
    (fleet : Fleet) (n : String) (e now : ℕ) (b : AgentRecord)
    → get_agent fleet.agents n ≡ some b
    → (b.version == e) ≡ false
    → log_done n "killed" (write_agent fleet n suspended e (killed_extra now))
      ≡ refused (database (version_conflict e b.version)) fleet
unfolding write_agent
write_stale fleet n e now b h d =
    rw (update_agent_state_stale fleet.agents n suspended (killed_extra now) e b h d) refl

wrote_anyway :
    (f : Fleet) (c : AgentRecord) (n : String) (now : ℕ) (o : Answer)
    → ((e : String) → o ≢ rejected e)
    → after_kill f c n now o
      ≡ log_done n "killed" (write_agent f n suspended c.version (killed_extra now))
unfolding after_kill
wrote_anyway f c n now succeeded q = refl
wrote_anyway f c n now (unsuccessful m) q = refl
wrote_anyway f c n now (rejected e) q = absurd (q e refl)

-- An agent that is placed on a registered proxy is killed from any state, also in the middle of an
-- operation, whatever the proxy answers, unless the call of the proxy rejects: the proxy is told to
-- kill the session, and if the row, read back after whatever others did meanwhile, still has its
-- version, the agent is suspended without a session. If it has another version, the kill throws a
-- version conflict after the session was killed, and writes nothing.
pub kill_agent-IsKilled :
    (meanwhile : Fleet → Fleet) (fleet : Fleet) (n proxy : String) (now : ℕ) (answer : Answer)
    (a b : AgentRecord)
    → get_agent fleet.agents n ≡ some a
    → require_proxy a (some fleet.registered) ≡ placed proxy
    → ((e : String) → answer ≢ rejected e)
    → get_agent (meanwhile (told fleet proxy a)).agents n ≡ some b
    → ((b.version ≡ a.version)
        × (r : AgentRecord) × (fleet' : Fleet) × (kill_agent meanwhile fleet n now answer
            ≡ done r fleet')
        × IsKilled (meanwhile (told fleet proxy a)) n r fleet')
      ⊎ ((b.version ≢ a.version)
          × (kill_agent meanwhile fleet n now answer
              ≡ refused
                  (database (version_conflict a.version b.version))
                  (meanwhile (told fleet proxy a))))
unfolding kill_agent kill_on kill_placed
kill_agent-IsKilled meanwhile fleet n proxy now answer a b h p d k =
    rw (h, kill_on)
      (rw (p, kill_placed)
        (rw (wrote_anyway later a n now answer d) (elim (Bool-cases (b.version == a.version)) [
          | inl t ↦
              let same : b.version ≡ a.version = (==_iff b.version a.version).0 t in
              inl (
                same,
                set_state suspended (killed_extra now) b,
                killed_fleet later n now b,
                subst
                    (λ v.
                      log_done n "killed" (write_agent later n suspended v (killed_extra now))
                      ≡ done (set_state suspended (killed_extra now) b)
                          (killed_fleet later n now b))
                    same (rw (write_agent_found later n b suspended (killed_extra now) k) refl),
                killed later n now b k,
              )
          | inr f ↦ inr (
            (λ e. false_ne_true f ((==_iff b.version a.version).1 e)),
            write_stale later n a.version now b k f,
          )
        ])))
  where
    later : Fleet
    later = meanwhile (told fleet proxy a)

-- Phase 1 of a spawn, where it is admitted.
spawn_there :
    (fleet : Fleet) (n proxy : String) (now : ℕ) (a : AgentRecord)
    → get_agent fleet.agents n ≡ some a
    → (state_eq a.state void || state_eq a.state failed) ≡ true
    → proxy ≢ ""
    → get_agent (fleet_of (begin_spawn fleet n proxy now)).agents n
      ≡ some (set_state spawning (spawn_extra n proxy now) a)
unfolding begin_spawn spawn_agent
spawn_there fleet n proxy now a h ok d = elim (Bool-cases (str_eq proxy "")) [
  | inl k ↦ absurd (d ((eq_iff proxy "").0 k))
  | inr k ↦
      rw (k, h, ok)
        (rw (write_agent_found fleet n a spawning (spawn_extra n proxy now) h)
          (written-IsUpdate fleet.agents n spawning (spawn_extra n proxy now) a h).stored)
]

-- Three steps that may come between the phases of a spawn: it begins, its watchdog fails the agent,
-- and the agent is spawned again.
abbrev pub spawned_again : Fleet → String → String → ℕ → ℕ → String → ℕ → ℕ → Fleet
spawned_again fleet n proxy first timeout_ms tmux late second = fleet_of (
    begin_spawn
      (watchdog (fleet_of (begin_spawn fleet n proxy first)) n spawning timeout_ms proxy tmux late)
      n proxy second)

failed_admits :
    (x : Extra) (a : AgentRecord)
    → (state_eq (set_state failed x a).state void || state_eq (set_state failed x a).state failed)
      ≡ true
failed_admits x a = rw state_after refl

is_state :
    (s : AgentState) (x : Extra) (a : AgentRecord) → state_eq (set_state s x a).state s ≡ true
is_state s x a = rw state_after (state_eq_refl s)

session_after :
    (n tmux : String) (session : Option String) (spawns now : ℕ) (a : AgentRecord)
    → (set_state active (final_extra spawn n session tmux spawns now) a).current_session_id
      ≡ session
unfolding set_state final_extra
session_after n tmux session spawns now a = refl

-- A timeout does not stop the spawn that it fails: if the agent is spawned again before the first
-- spawn reaches its last phase, that phase takes the second spawn for its own, and makes the agent
-- active with the first spawn's session id.
pub earlier_spawn_finishes :
    (fleet : Fleet) (n proxy tmux : String) (session : Option String)
    (first timeout_ms late second spawns now : ℕ) (a : AgentRecord)
    → get_agent fleet.agents n ≡ some a
    → a.state ≡ void
    → proxy ≢ ""
    → (r : AgentRecord) × (r.state ≡ active)
      × (r.current_session_id ≡ session)
      × (get_agent
            (fleet_of (
              finish
                (spawned_again fleet n proxy first timeout_ms tmux late second)
                spawn
                n
                (final_extra spawn n session tmux spawns now))).agents
            n
          ≡ some r)
earlier_spawn_finishes fleet n proxy tmux session first timeout_ms late second spawns now a h v d =
    let begun = spawn_there fleet n proxy first a h (ground (arith, v)) d in
    let timed_out =
      watchdog_there _ n _ begun spawn timeout_ms proxy tmux late (is_state spawning _ a) in
    let again = spawn_there _ n proxy second _ timed_out (failed_admits _ _) d in
    let ended =
      finish_there _ n _ again spawn (final_extra spawn n session tmux spawns now)
        (is_state spawning _ _) in
    (_, state_after active _ _, session_after n tmux session spawns now _, ended)
