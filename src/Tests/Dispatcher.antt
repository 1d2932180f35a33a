-- ===== src/Tests/Dispatcher.antt =====
-- The dispatcher of src/orchestrator/message-dispatcher.ts at concrete inputs.
use agentic_collab.Common.{refl, none, List, [], ◌∷◌, arith}
use agentic_collab.Dispatcher.State.{Dispatcher}
use agentic_collab.Dispatcher.Deliver.{success, failure}
use agentic_collab.Dispatcher.Step.{Event, sweep, timer, resume, enqueue, try_agent, run}
use agentic_collab.Dispatcher.Loops.{IsExclusive, flights, drains, timers, drainers}
use agentic_collab.Dispatcher.Exclusive.{run-IsExclusive}
use agentic_collab.Tests.Shared.{bob}

abbrev pub idle_dispatcher : Dispatcher
idle_dispatcher = record {
  agents = bob ∷ [];
  queue = record { rows = []; next_id = 1 };
  draining = [];
  timers = [];
  in_flight = [];
  cool_down = [];
  outputs = [];
}

pub idle_dispatcher-IsExclusive : IsExclusive idle_dispatcher
unfolding flights drains timers drainers
idle_dispatcher-IsExclusive b = record {
  one_flight = omega arith;
  loops = refl;
  one_loop = omega arith;
}

abbrev busy : List Event
busy =
    enqueue none "bob" "hello" 1000
    ∷ try_agent "bob" 1000
    ∷ enqueue none "bob" "again" 1100
    ∷ sweep 1100
    ∷ resume "bob" success 1200
    ∷ timer "bob" 3200
    ∷ resume "bob" (failure "gone") 3300
    ∷ []

run-IsExclusive_example : IsExclusive (run idle_dispatcher busy)
run-IsExclusive_example = run-IsExclusive idle_dispatcher busy idle_dispatcher-IsExclusive
