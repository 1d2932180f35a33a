-- ===== src/Dispatcher/Deliveries.antt =====
-- The pieces of a delivery keep one delivery and one drain loop for an agent
-- (src/orchestrator/message-dispatcher.ts).
use agentic_collab.Common.{
  ℕ, ◌+◌, String, ◌≡◌, ◌&&◌, Option, none, some, leb, ltb, str_eq, if◌then◌else◌, is_some, find,
  inl, inr, Bool-cases, count_of_none,
}
use agentic_collab.Database.Agents.{get_agent}
use agentic_collab.Database.Queue.{PendingMessage, has_pending_messages, mark_attempt_started}
use agentic_collab.Dispatcher.State.{
  Caller, from_try, from_drain, Phase, cooling, sending, Flight, Dispatcher, of_agent,
  release_drain, release_flight, begin_cool_down, end_cool_down, drain_max_attempts,
}
use agentic_collab.Dispatcher.Deliver.{
  Outcome, success, failure, thrown, fail_attempt, complete_attempt, resume_caller, resume_thrown,
  claim_delivery, fetch_message, continue_delivery, finish_delivery, has_proxy,
}
use agentic_collab.Dispatcher.Step.{wake_flight}
use agentic_collab.Dispatcher.Loops.{
  flights, IsExclusive, Owes, debt, SameLoops, IsAt-SameLoops, flights-SameLoops, release_drain_ok,
  schedule_drain_ok, release_flight_ok, add_flight_ok,
}
use agentic_collab.Dispatcher.Updates.{
  SameLoops-refl, SameLoops-trans, fail_attempt-SameLoops, complete_attempt-SameLoops,
  begin_cool_down-SameLoops, end_cool_down-SameLoops,
}

pub Owes-of_IsExclusive : (d : Dispatcher) (a : String) → IsExclusive d → Owes d a from_try
Owes-of_IsExclusive d a h b = elim (Bool-cases (str_eq a b)) [
  | inl t ↦ rw t (h b)
  | inr t ↦ rw t (h b)
]

IsExclusive-of_Owes : (d : Dispatcher) (a : String) → Owes d a from_try → IsExclusive d
IsExclusive-of_Owes d a h b = elim (Bool-cases (str_eq a b)) [
  | inl t ↦ rw t at (h b)
  | inr t ↦ rw t at (h b)
]

resume_caller_ok :
    (d : Dispatcher) (a : String) (c : Caller) → Owes d a c → IsExclusive (resume_caller d a c)
unfolding resume_caller
resume_caller_ok d a from_try h = elim (Bool-cases (has_pending_messages d.queue a)) [
  | inl t ↦ rw t (schedule_drain_ok d a 0 (IsExclusive-of_Owes d a h))
  | inr t ↦ rw t (IsExclusive-of_Owes d a h)
]
resume_caller_ok d a (from_drain n) h =
    elim (Bool-cases (has_pending_messages d.queue a && ltb (n + 1) drain_max_attempts)) [
      | inl t ↦ rw t (schedule_drain_ok (release_drain d a) a (n + 1) (release_drain_ok d a n h))
      | inr t ↦ rw t (release_drain_ok d a n h)
    ]

resume_thrown_ok :
    (d : Dispatcher) (a : String) (c : Caller) → Owes d a c → IsExclusive (resume_thrown d a c)
unfolding resume_thrown
resume_thrown_ok d a from_try h = IsExclusive-of_Owes d a h
resume_thrown_ok d a (from_drain n) h = release_drain_ok d a n h

pub claim_delivery_ok :
    (d : Dispatcher) (a : String) (c : Caller) (now : ℕ)
    → Owes d a c
    → IsExclusive (claim_delivery d a c now)
unfolding claim_delivery
claim_delivery_ok d a c now h = elim (Bool-cases (is_some (find (of_agent a) d.in_flight))) [
  | inl t ↦ rw t (resume_caller_ok d a c h)
  | inr t ↦
      let s = begin_cool_down-SameLoops d a now in
      let (wake, d') = begin_cool_down d a now in
      rw t (
        add_flight_ok d' a c (cooling wake)
          (flights-SameLoops a s (unfold flights in count_of_none (of_agent a) d.in_flight t))
          (λ b. IsAt-SameLoops _ b s (h b)))
]

pub Owes-SameLoops :
    (d' d : Dispatcher) (a : String) (c : Caller) → SameLoops d' d → Owes d a c → Owes d' a c
Owes-SameLoops d' d a c s h b = IsAt-SameLoops (if str_eq a b then debt c else 0) b s (h b)

module _ (d : Dispatcher) (f : Flight) (found : find (of_agent f.agent) d.in_flight ≡ some f)
    (h : IsExclusive d) where
  -- The delivery ends, after updates that the loops do not see.
  released : (d' : Dispatcher) → SameLoops d' d → Owes (release_flight d' f.agent) f.agent f.caller
  released d' s =
      (release_flight_ok d' f.agent f (rw s.in_flight found) (λ b. IsAt-SameLoops 0 b s (h b))).0

  fetch_message_ok :
      (d' : Dispatcher) (o : Option PendingMessage) (now : ℕ)
      → SameLoops d' d
      → IsExclusive (fetch_message d' f.agent f.caller o now)
  unfolding fetch_message
  fetch_message_ok d' none now s =
      resume_caller_ok (release_flight d' f.agent) f.agent f.caller (released d' s)
  fetch_message_ok d' (some m) now s =
      let started = record d' { queue = mark_attempt_started d'.queue m.id now } in
      let same : SameLoops started d = record {
        draining = s.draining;
        timers = s.timers;
        in_flight = s.in_flight;
      } in
      elim (Bool-cases (has_proxy (get_agent d'.agents f.agent))) [
        | inl t ↦
            let (owes, free) =
              release_flight_ok started f.agent f (rw s.in_flight found)
                (λ b. IsAt-SameLoops 0 b same (h b)) in
            rw t (
              add_flight_ok (release_flight started f.agent) f.agent f.caller (sending m.id) free
                owes)
        | inr t ↦
            let e : String = "Agent not available or has no proxy" in
            let x = fail_attempt-SameLoops started m.id e now in
            rw t (
              resume_caller_ok (release_flight (fail_attempt started m.id e now) f.agent) f.agent
                f.caller (released (fail_attempt started m.id e now) (SameLoops-trans x same)))
      ]

  continue_delivery_ok :
      (wake : Option ℕ) (now : ℕ) → IsExclusive (continue_delivery d f.agent f.caller wake now)
  unfolding continue_delivery
  continue_delivery_ok wake now =
      fetch_message_ok (end_cool_down d f.agent wake) _ now (end_cool_down-SameLoops d f.agent wake)

  finish_delivery_ok :
      (id : ℕ) (outcome : Outcome) (now : ℕ)
      → IsExclusive (finish_delivery d f.agent f.caller id outcome now)
  unfolding finish_delivery
  finish_delivery_ok id success now =
      resume_caller_ok _ f.agent f.caller
        (released (complete_attempt d f.agent id now) (complete_attempt-SameLoops d f.agent id now))
  finish_delivery_ok id (failure error) now =
      resume_caller_ok _ f.agent f.caller
        (released (fail_attempt d id error now) (fail_attempt-SameLoops d id error now))
  finish_delivery_ok id thrown now =
      resume_thrown_ok _ f.agent f.caller (released d (SameLoops-refl d))

  pub wake_flight_ok : (outcome : Outcome) (now : ℕ) → IsExclusive (wake_flight d f outcome now)
  unfolding wake_flight
  wake_flight_ok outcome now = go f.phase
    where
      go :
          (p : Phase)
          → IsExclusive (elim p [
            | cooling none ↦ continue_delivery d f.agent f.caller none now
            | cooling (some end) ↦
                if leb end now then continue_delivery d f.agent f.caller (some end) now else d
            | sending id ↦ finish_delivery d f.agent f.caller id outcome now
          ])
      go (cooling none) = continue_delivery_ok none now
      go (cooling (some end)) = elim (Bool-cases (leb end now)) [
        | inl t ↦ rw t (continue_delivery_ok (some end) now)
        | inr t ↦ rw t h
      ]
      go (sending id) = finish_delivery_ok id outcome now
