-- ===== src/Lifecycle/Steps.antt =====
-- The steps that the operations of src/orchestrator/lifecycle.ts take, in any order. Nothing comes
-- between the read and the write of a kill or a compaction that is a step here.
use agentic_collab.Common.{ℕ, String, Option, List, [], ◌∷◌}
use agentic_collab.Lifecycle.Fleet.{Fleet, fleet_of, Operation, intermediate, Answer}
use agentic_collab.Lifecycle.Phases.{
  begin_spawn, begin_resume, begin_suspend, begin_reload, begin_recover, finish, final_extra,
  mark_failed, watchdog,
}
use agentic_collab.Lifecycle.Single.{
  queue_reload, kill_agent, Compaction, compact_agent, destroy_agent, store_captured,
}

pub data Move : Type 0 where
  start_spawn : (name proxy : String) → (now : ℕ) → Move
  start_resume start_suspend start_reload start_recover : (name : String) → (now : ℕ) → Move
  conclude : Operation → (name : String) → Option String → (tmux : String) → (spawns now : ℕ) → Move
  fail_creation : Operation → (name reason event : String) → (now : ℕ) → Move
  time_out :
      Operation → (name : String) → (timeout_ms : ℕ) → (proxy tmux : String) → (now : ℕ) → Move
  queue : (name : String) → Option String → Move
  kill : (name : String) → (now : ℕ) → Answer → Move
  compact : (name : String) → (now : ℕ) → Compaction → Move
  destroy : (name : String) → Option String → Answer → Move
  store : (name var value : String) → Move

-- The agent that a move is about.
abbrev pub subject : Move → String
subject (start_spawn name proxy now) = name
subject (start_resume name now) = name
subject (start_suspend name now) = name
subject (start_reload name now) = name
subject (start_recover name now) = name
subject (conclude operation name session tmux spawns now) = name
subject (fail_creation operation name reason event now) = name
subject (time_out operation name timeout_ms proxy tmux now) = name
subject (queue name task) = name
subject (kill name now answer) = name
subject (compact name now hook) = name
subject (destroy name profile answer) = name
subject (store name var value) = name

unfoldable pub move : Fleet → Move → Fleet
move fleet (start_spawn name proxy now) = fleet_of (begin_spawn fleet name proxy now)
move fleet (start_resume name now) = fleet_of (begin_resume fleet name now)
move fleet (start_suspend name now) = fleet_of (begin_suspend fleet name now)
move fleet (start_reload name now) = fleet_of (begin_reload fleet name now)
move fleet (start_recover name now) = fleet_of (begin_recover fleet name now)
move fleet (conclude operation name session tmux spawns now) =
    fleet_of (finish fleet operation name (final_extra operation name session tmux spawns now))
move fleet (fail_creation operation name reason event now) =
    mark_failed fleet name (intermediate operation) reason event now
move fleet (time_out operation name timeout_ms proxy tmux now) =
    watchdog fleet name (intermediate operation) timeout_ms proxy tmux now
move fleet (queue name task) = fleet_of (queue_reload fleet name task)
move fleet (kill name now answer) = fleet_of (kill_agent (λ f. f) fleet name now answer)
move fleet (compact name now hook) = fleet_of (compact_agent (λ f. f) fleet name now hook)
move fleet (destroy name profile answer) = fleet_of (destroy_agent fleet name profile answer)
move fleet (store name var value) = store_captured fleet name var value

unfoldable pub moves : Fleet → List Move → Fleet
moves fleet [] = fleet
moves fleet (m ∷ ms) = moves (move fleet m) ms
