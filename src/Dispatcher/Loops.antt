-- ===== src/Dispatcher/Loops.antt =====
-- How many drain loops and deliveries src/orchestrator/message-dispatcher.ts has for an agent.
use agentic_collab.Common.{
  subst, ◌∙◌, none_ne_some, ℕ, ◌+◌, ◌≤◌, String, ◌≡◌, refl, Bool, true, false, not, ◌&&◌, some,
  List, leb, str_eq, eq_iff, eq_refl, if◌then◌else◌, find, select, count, arith, inl, inr,
  Bool-cases, Option-cases, count-select_none, count-select_all, count_of_any, count_of_some,
  count-and_first,
}
use agentic_collab.Dispatcher.State.{
  Caller, from_try, from_drain, Phase, Flight, Dispatcher, of_agent, keyed, is_member, remove_name,
  remove_key, lookup_key, schedule_drain, release_drain, release_flight, add_flight,
  drain_max_attempts,
}
use agentic_collab.Database.Queue.{has_pending_messages}

abbrev is_drain : Flight → Bool
is_drain f = elim f.caller [ from_try ↦ false | from_drain n ↦ true ]

unfoldable pub flights : Dispatcher → String → ℕ
flights d b = count (of_agent b) d.in_flight

unfoldable pub drainers : Dispatcher → String → ℕ
drainers d b = count (λ f. of_agent b f && is_drain f) d.in_flight

unfoldable pub timers : Dispatcher → String → ℕ
timers d b = count (keyed b) d.timers

unfoldable pub drains : Dispatcher → String → ℕ
drains d b = count (λ a. str_eq a b) d.draining

-- One delivery at most for the agent, and as many drain rights as drain loops, but for `debt` that
-- a loop holds which is neither waiting on its timer nor in a delivery; one at most.
pub record IsAt (d : Dispatcher) (debt : ℕ) (b : String) : Type 0 where
  pub one_flight : flights d b ≤ 1
  pub loops : drains d b ≡ timers d b + drainers d b + debt
  pub one_loop : drains d b ≤ 1

abbrev pub IsExclusive : Dispatcher → Type 0
IsExclusive d = (b : String) → IsAt d 0 b

abbrev pub debt : Caller → ℕ
debt from_try = 0
debt (from_drain n) = 1

-- The drain loop of `a` runs on behalf of `caller`.
abbrev pub Owes : Dispatcher → String → Caller → Type 0
Owes d a caller = (b : String) → IsAt d (if str_eq a b then debt caller else 0) b

-- Fields that the counts do not read may change.
pub record SameLoops (d' d : Dispatcher) : Type 0 where
  pub draining : d'.draining ≡ d.draining
  pub timers : d'.timers ≡ d.timers
  pub in_flight : d'.in_flight ≡ d.in_flight

pub IsAt-SameLoops :
    {d' d : Dispatcher} (k : ℕ) (b : String) → SameLoops d' d → IsAt d k b → IsAt d' k b
unfolding flights drainers timers drains
IsAt-SameLoops {d'} {d} k b s h = record {
  one_flight = rw s.in_flight h.one_flight;
  loops = rw (s.in_flight, s.timers, s.draining) h.loops;
  one_loop = rw s.draining h.one_loop;
}

keyed-remove_key :
    (a b : String) (e : String × ℕ) → str_eq a b ≡ false → keyed b e ≡ true → not (keyed a e) ≡ true
keyed-remove_key a b (c, n) d h = ground (arith, eq_iff c a, eq_iff c b, eq_iff a b)

pub timers-remove_key :
    (a b : String) (es : List (String × ℕ))
    → count (keyed b) (remove_key a es) ≡ (if str_eq a b then 0 else count (keyed b) es)
timers-remove_key a b es = elim (Bool-cases (str_eq a b)) [
  | inl t ↦ rw t (
      rw (← (eq_iff a b).0 t)
        (count-select_none (keyed a) (λ e. not (keyed a e)) (λ e h. rw h refl) es))
  | inr t ↦
      rw t (count-select_all (keyed b) (λ e. not (keyed a e)) (λ e. keyed-remove_key a b e t) es)
]

pub drains-remove_name :
    (a b : String) (ns : List String)
    → count (λ x. str_eq x b) (remove_name a ns)
      ≡ (if str_eq a b then 0 else count (λ x. str_eq x b) ns)
drains-remove_name a b ns = elim (Bool-cases (str_eq a b)) [
  | inl t ↦ rw t (
      rw (← (eq_iff a b).0 t)
        (count-select_none (λ x. str_eq x a) (λ x. not (str_eq x a)) (λ e h. rw h refl) ns))
  | inr t ↦ rw t (
      count-select_all (λ x. str_eq x b) (λ x. not (str_eq x a))
        (λ c h. ground (arith, eq_iff c a, eq_iff c b, eq_iff a b)) ns)
]

of_agent_ne :
    (a b : String) (f : Flight)
    → str_eq a b ≡ false
    → of_agent b f ≡ true
    → not (of_agent a f) ≡ true
of_agent_ne a b f d h = ground (arith, eq_iff f.agent a, eq_iff f.agent b, eq_iff a b)

flights-release :
    (a b : String) (fs : List Flight)
    → count (of_agent b) (select (λ f. not (of_agent a f)) fs)
      ≡ (if str_eq a b then 0 else count (of_agent b) fs)
flights-release a b fs = elim (Bool-cases (str_eq a b)) [
  | inl t ↦ rw t (
      rw (← (eq_iff a b).0 t)
        (count-select_none (of_agent a) (λ f. not (of_agent a f)) (λ f h. rw h refl) fs))
  | inr t ↦
      rw t
        (count-select_all (of_agent b) (λ f. not (of_agent a f)) (λ f h. of_agent_ne a b f t h) fs)
]

drainers-release :
    (a b : String) (fs : List Flight)
    → count (λ f. of_agent b f && is_drain f) (select (λ f. not (of_agent a f)) fs)
      ≡ (if str_eq a b then 0 else count (λ f. of_agent b f && is_drain f) fs)
drainers-release a b fs = elim (Bool-cases (str_eq a b)) [
  | inl t ↦ rw t (
      rw (← (eq_iff a b).0 t) (
        count-select_none (λ f. of_agent a f && is_drain f) (λ f. not (of_agent a f))
          (λ f h. ground arith) fs))
  | inr t ↦ rw t (
      count-select_all (λ f. of_agent b f && is_drain f) (λ f. not (of_agent a f))
        (λ f h. of_agent_ne a b f t (ground arith)) fs)
]

drain_of_caller : (f : Flight) → (if is_drain f then 1 else 0) ≡ debt f.caller
drain_of_caller f = ground arith

no_drain_at :
    (ns : List String) (a b : String)
    → is_member ns a ≡ false
    → str_eq a b ≡ true
    → count (λ x. str_eq x b) ns ≡ 0
no_drain_at ns a b h e =
    subst (λ c. count (λ x. str_eq x c) ns ≡ 0) ((eq_iff a b).0 e)
      (count_of_any (λ x. str_eq x a) ns h)

module _ (d : Dispatcher) (a : String) where
  -- The rights that a drain loop held are given back.
  pub release_drain_ok : (n : ℕ) → Owes d a (from_drain n) → IsExclusive (release_drain d a)
  unfolding release_drain flights drainers timers drains
  release_drain_ok n h b = record {
    one_flight = (h b).one_flight;
    loops = rw (drains-remove_name a b d.draining) (ground (arith, (h b).loops, (h b).one_loop));
    one_loop = rw (drains-remove_name a b d.draining) (ground (arith, (h b).one_loop));
  }

  pub schedule_drain_ok : (n : ℕ) → IsExclusive d → IsExclusive (schedule_drain d a n)
  unfolding schedule_drain flights drainers timers drains
  schedule_drain_ok n h b = elim (Bool-cases (is_member d.draining a)) [
    | inl t ↦ rw t (h b)
    | inr t ↦ rw t (elim (Bool-cases (leb drain_max_attempts n)) [
      | inl u ↦ rw u (h b)
      | inr u ↦ rw u (elim (Bool-cases (has_pending_messages d.queue a)) [
        | inl v ↦ rw v (record {
          one_flight = (h b).one_flight;
          loops =
              ground
                (arith, (h b).loops, timers-remove_key a b d.timers, no_drain_at d.draining a b t);
          one_loop = ground (arith, (h b).one_loop, no_drain_at d.draining a b t);
        })
        | inr v ↦ rw v (h b)
      ])
    ])
  ]

  pub release_flight_ok :
      (f : Flight)
      → find (of_agent a) d.in_flight ≡ some f
      → IsExclusive d
      → Owes (release_flight d a) a f.caller × (flights (release_flight d a) a ≡ 0)
  unfolding release_flight flights drainers timers drains
  release_flight_ok f g h = (
    (λ b. record {
      one_flight = rw (flights-release a b d.in_flight) (ground (arith, (h b).one_flight));
      loops = rw (drainers-release a b d.in_flight) (ground (arith, (h b).loops, drainers_at b));
      one_loop = (h b).one_loop;
    }),
    rw (flights-release a a d.in_flight) (rw (eq_refl a) refl),
  )
    where
      drainers_at :
          (b : String)
          → str_eq a b ≡ true
          → count (λ x. of_agent b x && is_drain x) d.in_flight ≡ debt f.caller
      drainers_at b e =
          subst (λ c. count (λ x. of_agent c x && is_drain x) d.in_flight ≡ debt f.caller)
            ((eq_iff a b).0 e)
            (count-and_first (of_agent a) is_drain d.in_flight f g (h a).one_flight
              ∙ drain_of_caller f)

  pub add_flight_ok :
      (caller : Caller) (phase : Phase)
      → flights d a ≡ 0
      → Owes d a caller
      → IsExclusive (add_flight d a caller phase)
  unfolding add_flight flights drainers timers drains
  add_flight_ok from_try phase z h b = record {
    one_flight = ground (arith, (h b).one_flight, zero_at b);
    loops = ground (arith, (h b).loops);
    one_loop = (h b).one_loop;
  }
    where
      zero_at : (c : String) → str_eq a c ≡ true → count (of_agent c) d.in_flight ≡ 0
      zero_at c e = subst (λ c. count (of_agent c) d.in_flight ≡ 0) ((eq_iff a c).0 e) z
  add_flight_ok (from_drain n) phase z h b = record {
    one_flight = ground (arith, (h b).one_flight, zero_at b);
    loops = ground (arith, (h b).loops);
    one_loop = (h b).one_loop;
  }
    where
      zero_at : (c : String) → str_eq a c ≡ true → count (of_agent c) d.in_flight ≡ 0
      zero_at c e = subst (λ c. count (of_agent c) d.in_flight ≡ 0) ((eq_iff a c).0 e) z

pub flights-SameLoops :
    {d' d : Dispatcher} (b : String) → SameLoops d' d → flights d b ≡ 0 → flights d' b ≡ 0
unfolding flights
flights-SameLoops b s h = rw s.in_flight h

timer_found :
    (a : String) (es : List (String × ℕ)) (n : ℕ)
    → lookup_key a es ≡ some n
    → 1 ≤ count (keyed a) es
timer_found a es n h = elim (Option-cases (find (keyed a) es)) [
  | inl m ↦ absurd (none_ne_some (rw (m, lookup_key) at h))
  | inr (e, m) ↦ count_of_some (keyed a) es e m
]

-- A timer that fires leaves its drain loop running.
pub take_timer_ok :
    (d : Dispatcher) (a : String) (n : ℕ)
    → lookup_key a d.timers ≡ some n
    → IsExclusive d
    → Owes (record d { timers = remove_key a d.timers }) a (from_drain n)
unfolding flights drainers timers drains
take_timer_ok d a n g h b = record {
  one_flight = (h b).one_flight;
  loops = rw (timers-remove_key a b d.timers) (ground (arith, (h b).loops, (h b).one_loop, at_b b));
  one_loop = (h b).one_loop;
}
  where
    at_b : (c : String) → str_eq a c ≡ true → 1 ≤ count (keyed c) d.timers
    at_b c e =
        subst (λ x. 1 ≤ count (keyed x) d.timers) ((eq_iff a c).0 e) (timer_found a d.timers n g)
