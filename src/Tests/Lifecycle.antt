-- ===== src/Tests/Lifecycle.antt =====
-- The lifecycle of src/orchestrator/lifecycle.ts at concrete inputs.
use agentic_collab.Common.{
  codes, Text, ℕ, ◌<◌, String, ◌≡◌, ◌≢◌, ◌⊎◌, refl, true, Option, none, some, [], ◌∷◌, eq_iff,
  false_ne_true, str_eq,
}
use agentic_collab.Shared.Agent.{
  AgentRecord, void, spawning, suspending, active, failed, placed, require_proxy, require_pinned,
  require_assigned, is_transitioning, can_suspend,
}
use agentic_collab.Database.Agents.{
  get_agent, set_state, version_conflict, update_agent_state, write_state,
}
use agentic_collab.Lifecycle.Fleet.{
  Fleet, database, done, refused, wrong_state, fleet_of, log_event, spawn, intermediate,
  unsuccessful, write_agent, touched,
}
use agentic_collab.Lifecycle.Phases.{
  begin_spawn, begin_resume, begin_suspend, begin_reload, begin_recover, finish, final_extra,
  watchdog, begin_on, write_placed,
}
use agentic_collab.Lifecycle.Single.{kill_agent}
use agentic_collab.Lifecycle.Steps.{start_suspend, move, moves}
use agentic_collab.Lifecycle.Machine.{IsMove}
use agentic_collab.Lifecycle.History.{move-IsMove, IsSameRow, moves_version}
use agentic_collab.Lifecycle.Races.{
  transitioning_refuses, finish_after_watchdog, watchdog_after_finish,
}
use agentic_collab.Lifecycle.Stops.{
  told, IsKilled, kill_agent-IsKilled, spawned_again, earlier_spawn_finishes,
}
use agentic_collab.Lifecycle.Hooks.{
  PaneCommand, send_keys, paste_into, capture_lines, PaneAnswer, answered, rejected, HookResult,
  shell, capture, pipeline, dispatch_hook_result,
}
use agentic_collab.Lifecycle.Hooks.Order.{answers, at, play, script, dispatch_hook_result-script}
use agentic_collab.Tests.Shared.{bob}

abbrev new_bob : AgentRecord
new_bob = record bob { state = void; version = 0 }

abbrev busy_bob : AgentRecord
busy_bob = record bob { state = spawning }

abbrev fleet_with : AgentRecord → Fleet
fleet_with a = record {
  agents = a ∷ [];
  registered = "p1" ∷ [];
  events = [];
  sent = [];
  tokens = [];
}

found :
    (a : AgentRecord) → str_eq a.name "bob" ≡ true → get_agent (fleet_with a).agents "bob" ≡ some a
unfolding get_agent
found a e = rw e refl

abbrev p1_name : String
p1_name = "p1"

p1_named : p1_name ≢ ""
p1_named e = false_ne_true refl ((eq_iff "p1" "").1 e)

-- The record that a suspend of `bob` begins with.
abbrev leaving_bob : AgentRecord
leaving_bob = set_state suspending (touched 500) bob

leaving :
    get_agent (move (fleet_with bob) (start_suspend "bob" 500)).agents "bob" ≡ some leaving_bob
unfolding move begin_suspend begin_on write_placed write_agent require_proxy require_pinned
    require_assigned update_agent_state write_state get_agent set_state can_suspend
leaving = refl

move-IsMove_example : IsMove active leaving_bob.state
move-IsMove_example =
    move-IsMove (fleet_with bob) (start_suspend "bob" 500) "bob" bob leaving_bob (found bob refl)
      leaving

moves_version_example : IsSameRow bob leaving_bob ⊎ (bob.version < leaving_bob.version)
moves_version_example =
    moves_version (fleet_with bob) (start_suspend "bob" 500 ∷ []) "bob" bob leaving_bob
      (found bob refl) (unfold moves in leaving)

transitioning_refuses_example :
    (begin_spawn (fleet_with busy_bob) "bob" "p1" 500
      ≡ refused (wrong_state spawning) (fleet_with busy_bob))
    × (begin_resume (fleet_with busy_bob) "bob" 500
        ≡ refused (wrong_state spawning) (fleet_with busy_bob))
    × (begin_suspend (fleet_with busy_bob) "bob" 500
        ≡ refused (wrong_state spawning) (fleet_with busy_bob))
    × (begin_reload (fleet_with busy_bob) "bob" 500
        ≡ refused (wrong_state spawning) (fleet_with busy_bob))
    × (begin_recover (fleet_with busy_bob) "bob" 500
        ≡ refused (wrong_state spawning) (fleet_with busy_bob))
transitioning_refuses_example =
    transitioning_refuses (fleet_with busy_bob) "bob" "p1" 500 busy_bob (found busy_bob refl)
      (unfold is_transitioning in refl) p1_named

abbrev timed_out_fleet : Fleet
timed_out_fleet =
    watchdog (fleet_with busy_bob) "bob" (intermediate spawn) 30000 "p1" "agent-bob" 31000

finish_after_watchdog_example :
    (r : AgentRecord) × (event : String) × (r.state ≡ failed)
    × (finish timed_out_fleet spawn "bob" (touched 32000)
        ≡ done r (log_event "bob" event timed_out_fleet))
finish_after_watchdog_example =
    finish_after_watchdog (fleet_with busy_bob) "bob" busy_bob spawn 30000 "p1" "agent-bob" 31000
      (touched 32000) (found busy_bob refl) refl

watchdog_after_finish_example :
    watchdog
      (fleet_of (finish (fleet_with busy_bob) spawn "bob" (touched 20000)))
      "bob"
      (intermediate spawn)
      30000
      "p1"
      "agent-bob"
      31000
    ≡ fleet_of (finish (fleet_with busy_bob) spawn "bob" (touched 20000))
watchdog_after_finish_example =
    watchdog_after_finish (fleet_with busy_bob) "bob" busy_bob spawn 30000 "p1" "agent-bob" 31000
      (touched 20000) (found busy_bob refl) refl

busy_placed : require_proxy busy_bob (some ("p1" ∷ [])) ≡ placed "p1"
unfolding require_proxy require_pinned require_assigned
busy_placed = refl

-- While the proxy kills the session, the health monitor writes the row.
abbrev seen_bob : AgentRecord
seen_bob = set_state spawning (touched 850) busy_bob

abbrev written_meanwhile : Fleet → Fleet
written_meanwhile f = record f { agents = seen_bob ∷ [] }

abbrev in_between : Fleet
in_between = written_meanwhile (told (fleet_with busy_bob) "p1" busy_bob)

seen_there : get_agent in_between.agents "bob" ≡ some seen_bob
unfolding get_agent set_state
seen_there = refl

kill_agent-IsKilled_example :
    ((seen_bob.version ≡ busy_bob.version)
      × (r : AgentRecord) × (fleet' : Fleet) × (kill_agent written_meanwhile
            (fleet_with busy_bob)
            "bob"
            900
            (unsuccessful none)
          ≡ done r fleet')
      × IsKilled in_between "bob" r fleet')
    ⊎ ((seen_bob.version ≢ busy_bob.version)
        × (kill_agent written_meanwhile (fleet_with busy_bob) "bob" 900 (unsuccessful none)
            ≡ refused (database (version_conflict busy_bob.version seen_bob.version)) in_between))
kill_agent-IsKilled_example =
    kill_agent-IsKilled written_meanwhile (fleet_with busy_bob) "bob" "p1" 900 (unsuccessful none)
      busy_bob seen_bob (found busy_bob refl) busy_placed (λ e k. cc) seen_there

earlier_spawn_finishes_example :
    (r : AgentRecord) × (r.state ≡ active)
    × (r.current_session_id ≡ some "first")
    × (get_agent
          (fleet_of (
            finish
              (spawned_again (fleet_with new_bob) "bob" "p1" 100 30000 "agent-bob" 30100 31000)
              spawn
              "bob"
              (final_extra spawn "bob" (some "first") "agent-bob" 0 35000))).agents
          "bob"
        ≡ some r)
earlier_spawn_finishes_example =
    earlier_spawn_finishes (fleet_with new_bob) "bob" "p1" "agent-bob" (some "first") 100 30000
      30100 31000 0 35000 new_bob (found new_bob refl) refl p1_named

-- Keys are rejected, and all else is answered.
abbrev obliging : PaneCommand → PaneAnswer
obliging (send_keys k) = rejected (codes "gone")
obliging (paste_into t) = answered true none
obliging (capture_lines n) = answered true (some (codes "session 1"))

abbrev match_all : Text → Text → Option Text
match_all regex pane = some pane

abbrev length_three : Text → ℕ
length_three t = 3

abbrev hook : HookResult
hook = pipeline (shell (codes "run") ∷ capture 5 (codes "uuid") (codes "SESSION_ID") ∷ [])

dispatch_hook_result-script_example :
    dispatch_hook_result
      (answers obliging match_all length_three "p1" "agent-bob")
      match_all
      length_three
      "p1"
      "agent-bob"
      true
      none
      true
      hook
      (at obliging match_all length_three "p1" "agent-bob" [])
    ≡ play obliging match_all length_three "p1" "agent-bob"
        (script obliging match_all length_three "p1" "agent-bob" true none true hook)
        []
dispatch_hook_result-script_example =
    dispatch_hook_result-script obliging match_all length_three "p1" "agent-bob" true none true hook
      []
