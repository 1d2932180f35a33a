-- ===== src/Dispatcher/Exclusive.antt =====
-- One delivery and one drain loop for an agent at a time
-- (src/orchestrator/message-dispatcher.ts).
use agentic_collab.Common.{
  sym, find_holds, ℕ, String, ◌≡◌, refl, Option, none, some, List, [], ◌∷◌, first, eq_iff, is_some,
  find, inl, inr, Bool-cases, subst,
}
use agentic_collab.Database.Agents.{get_agent}
use agentic_collab.Database.Queue.{get_deliverable_messages, agents_with_pending}
use agentic_collab.Dispatcher.State.{
  from_try, from_drain, Flight, Dispatcher, of_agent, lookup_key, signal_lifecycle_op, remove_key,
}
use agentic_collab.Dispatcher.Step.{
  recover_stale, try_deliver, try_all, drain_pending, fire, wake_flight, Event, try_agent, sweep,
  timer, resume, signal, enqueue, cancel, clear, set_agents, step, run, can_receive,
}
use agentic_collab.Dispatcher.Loops.{
  IsExclusive, SameLoops, IsAt-SameLoops, take_timer_ok, release_drain_ok, schedule_drain_ok,
}
use agentic_collab.Dispatcher.Deliveries.{
  Owes-of_IsExclusive, claim_delivery_ok, Owes-SameLoops, wake_flight_ok,
}

recover_stale-SameLoops : (d : Dispatcher) (now : ℕ) → SameLoops (recover_stale d now) d
unfolding recover_stale
recover_stale-SameLoops d now = record { draining = refl; timers = refl; in_flight = refl }

pub try_deliver_ok :
    (d : Dispatcher) (a : String) (now : ℕ) → IsExclusive d → IsExclusive (try_deliver d a now)
unfolding try_deliver
try_deliver_ok d a now h =
    let d' = recover_stale d now in
    let h' : IsExclusive d' = λ b. IsAt-SameLoops 0 b (recover_stale-SameLoops d now) (h b) in
    elim (Bool-cases (can_receive (get_agent d'.agents a))) [
      | inl t ↦ rw t (claim_delivery_ok d' a from_try now (Owes-of_IsExclusive d' a h'))
      | inr t ↦
          rw t (elim (Bool-cases (is_some (first (get_deliverable_messages d'.queue a now)))) [
            | inl u ↦ rw u (schedule_drain_ok d' a 0 h')
            | inr u ↦ rw u h'
          ])
    ]

try_all_ok :
    (d : Dispatcher) (agents : List String) (now : ℕ)
    → IsExclusive d
    → IsExclusive (try_all d agents now)
unfolding try_all
try_all_ok d [] now h = h
try_all_ok d (a ∷ agents) now h =
    try_all_ok (try_deliver d a now) agents now (try_deliver_ok d a now h)

fire_ok :
    (d : Dispatcher) (a : String) (n now : ℕ)
    → lookup_key a d.timers ≡ some n
    → IsExclusive d
    → IsExclusive (fire d a n now)
unfolding fire
fire_ok d a n now g h =
    let d' = record d { timers = remove_key a d.timers } in
    let owes =
      Owes-SameLoops (recover_stale d' now) d' a (from_drain n) (recover_stale-SameLoops d' now)
        (take_timer_ok d a n g h) in
    elim (Bool-cases (can_receive (get_agent (recover_stale d' now).agents a))) [
      | inl t ↦ rw t (claim_delivery_ok (recover_stale d' now) a (from_drain n) now owes)
      | inr t ↦ rw t (release_drain_ok (recover_stale d' now) a n owes)
    ]

same : (d' d : Dispatcher) → SameLoops d' d → IsExclusive d → IsExclusive d'
same d' d s h b = IsAt-SameLoops 0 b s (h b)

step_ok : (d : Dispatcher) (e : Event) → IsExclusive d → IsExclusive (step d e)
unfolding step
step_ok d (try_agent a now) h = try_deliver_ok d a now h
step_ok d (sweep now) h =
    unfold drain_pending in try_all_ok d (agents_with_pending d.queue.rows) now h
step_ok d (timer a now) h = go (lookup_key a d.timers) refl
  where
    go :
        (o : Option ℕ)
        → lookup_key a d.timers ≡ o
        → IsExclusive (elim o [ none ↦ d | some n ↦ fire d a n now ])
    go none g = h
    go (some n) g = fire_ok d a n now g h
step_ok d (resume a outcome now) h = go (find (of_agent a) d.in_flight) refl
  where
    go :
        (o : Option Flight)
        → find (of_agent a) d.in_flight ≡ o
        → IsExclusive (elim o [ none ↦ d | some f ↦ wake_flight d f outcome now ])
    go none g = h
    go (some f) g =
        let e = (eq_iff f.agent a).0 (find_holds (of_agent a) d.in_flight f g) in
        wake_flight_ok d f (subst (λ x. find (of_agent x) d.in_flight ≡ some f) (sym e) g) h outcome
          now
step_ok d (signal a now) h =
    unfold signal_lifecycle_op in
    same _ d (record { draining = refl; timers = refl; in_flight = refl }) h
step_ok d (enqueue source target envelope now) h =
    same _ d (record { draining = refl; timers = refl; in_flight = refl }) h
step_ok d (cancel id) h = same _ d (record { draining = refl; timers = refl; in_flight = refl }) h
step_ok d (clear a) h = same _ d (record { draining = refl; timers = refl; in_flight = refl }) h
step_ok d (set_agents agents) h =
    same _ d (record { draining = refl; timers = refl; in_flight = refl }) h

-- From a dispatcher where it holds: as long as `stop` is not called, in whatever order the other
-- calls, timers and answers come, an agent has one delivery in progress at most, and one drain loop
-- at most, waiting on its timer or in a delivery; it is marked as draining exactly while it has a
-- drain loop.
pub run-IsExclusive :
    (d : Dispatcher) (events : List Event) → IsExclusive d → IsExclusive (run d events)
unfolding run
run-IsExclusive d [] h = h
run-IsExclusive d (e ∷ events) h = run-IsExclusive (step d e) events (step_ok d e h)
