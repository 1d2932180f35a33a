-- ===== src/HealthMonitor/Idle.antt =====
-- Which polls of src/orchestrator/health-monitor.ts make an agent idle.
use agentic_collab.Common.{
  ◌≡◌, refl, ap, ℕ, suc, ◌+◌, ◌-◌, ◌≤◌, String, Bool, true, false, not, ◌&&◌, Option, none, some,
  List, [], ◌∷◌, ltb, leb, Text, text_eq, if◌then◌else◌, inl, inr, Bool-cases, arith,
}
use agentic_collab.Shared.Agent.{AgentRecord, AgentState, active, idle, state_eq}
use agentic_collab.Database.Agents.{get_agent}
use agentic_collab.Lifecycle.Fleet.{Fleet, fleet_of, log_done, write_agent, touched}
use agentic_collab.Shared.Agent.Entity.{eq_of_state_eq}
use agentic_collab.HealthMonitor.{
  Watch, Signal, active_pattern, idle_pattern, no_pattern, Poll, by_signal, handle_idle_transitions,
}

-- The polls of an agent, the latest first.
abbrev pub History : Type 0
History = List Poll

abbrev pub previous : History → Option Text
previous [] = none
previous (p ∷ ps) = some p.snapshot

abbrev pub same_as : Text → Option Text → Bool
same_as t none = false
same_as t (some u) = text_eq t u

abbrev pub differs_from : Text → Option Text → Bool
differs_from t none = false
differs_from t (some u) = not (text_eq t u)

-- A poll that saw the agent wait: an idle pattern, or, without a pattern, the pane of the poll before.
abbrev pub is_quiet_at : Signal → Text → Option Text → Bool
is_quiet_at active_pattern t before = false
is_quiet_at idle_pattern t before = true
is_quiet_at no_pattern t before = same_as t before

-- A poll that saw it work: an active pattern, or another pane than at the poll before.
abbrev pub is_change_at : Signal → Text → Option Text → Bool
is_change_at active_pattern t before = true
is_change_at idle_pattern t before = false
is_change_at no_pattern t before = differs_from t before

-- How many polls on end, up to the latest, saw it wait; and when it was last seen to work.
unfoldable pub quiet_run : History → ℕ
quiet_run [] = 0
quiet_run (p ∷ ps) =
    let rest = quiet_run ps in if is_quiet_at p.signal p.snapshot (previous ps) then suc rest else 0

unfoldable pub last_change : History → ℕ
last_change [] = 0
last_change (p ∷ ps) =
    let rest = last_change ps in
    if is_change_at p.signal p.snapshot (previous ps) then p.now else rest

pub verdict_if :
    (threshold n : ℕ) (b : Bool)
    → 1 ≤ threshold
    → (if b then leb threshold (n + 1) else false) ≡ leb threshold (if b then suc n else 0)
verdict_if threshold n true h = ap (λ m. leb threshold m) (omega arith)
verdict_if threshold n false h = ground arith

-- The row of an agent in its new state, with the event.
abbrev pub moved : AgentState → String → ℕ → AgentRecord → Fleet → Fleet
moved to event now a fleet =
    fleet_of (log_done a.name event (write_agent fleet a.name to a.version (touched now)))

swap_test :
    (grace elapsed : ℕ) (x y : Fleet)
    → (if ltb elapsed grace then x else y) ≡ (if leb grace elapsed then y else x)
swap_test grace elapsed x y = elim (Bool-cases (ltb elapsed grace)) [
  | inl e ↦ let f : leb grace elapsed ≡ false = ground arith in rw (e, f) refl
  | inr e ↦ let f : leb grace elapsed ≡ true = ground arith in rw (e, f) refl
]

active_not_idle : (s : AgentState) → state_eq s active ≡ true → state_eq s idle ≡ false
active_not_idle s e = ground (arith, eq_of_state_eq s active e)

idle_not_active : (s : AgentState) → state_eq s idle ≡ true → state_eq s active ≡ false
idle_not_active s e = ground (arith, eq_of_state_eq s idle e)

module _ (threshold : ℕ) where
  -- What one poll makes of the entries, for any snapshot before it.
  module _ (now : ℕ) (t : Text) (w : Watch) where
    pub by_signal-snapshot :
        (s : Signal) (o : Option Text)
        → (by_signal threshold now t o s w).1.last_pane_snapshot ≡ w.last_pane_snapshot
    unfolding by_signal
    by_signal-snapshot active_pattern o = refl
    by_signal-snapshot idle_pattern o = refl
    by_signal-snapshot no_pattern none = refl
    by_signal-snapshot no_pattern (some u) = elim (Bool-cases (text_eq t u)) [
      | inl e ↦ rw e refl
      | inr e ↦ rw e refl
    ]

    pub by_signal-count :
        (s : Signal) (o : Option Text)
        → (by_signal threshold now t o s w).1.unchanged_count
          ≡ (if is_quiet_at s t o then w.unchanged_count + 1 else 0)
    unfolding by_signal
    by_signal-count active_pattern o = refl
    by_signal-count idle_pattern o = refl
    by_signal-count no_pattern none = refl
    by_signal-count no_pattern (some u) = elim (Bool-cases (text_eq t u)) [
      | inl e ↦ rw e refl
      | inr e ↦ rw e refl
    ]

    pub by_signal-change :
        (s : Signal) (o : Option Text)
        → (by_signal threshold now t o s w).1.last_activity_detected
          ≡ (if is_change_at s t o then now else w.last_activity_detected)
    unfolding by_signal
    by_signal-change active_pattern o = refl
    by_signal-change idle_pattern o = refl
    by_signal-change no_pattern none = refl
    by_signal-change no_pattern (some u) = elim (Bool-cases (text_eq t u)) [
      | inl e ↦ rw e refl
      | inr e ↦ rw e refl
    ]

    pub by_signal-verdict :
        (s : Signal) (o : Option Text)
        → (by_signal threshold now t o s w).0
          ≡ (if is_quiet_at s t o then leb threshold (w.unchanged_count + 1) else false)
    unfolding by_signal
    by_signal-verdict active_pattern o = refl
    by_signal-verdict idle_pattern o = refl
    by_signal-verdict no_pattern none = refl
    by_signal-verdict no_pattern (some u) = elim (Bool-cases (text_eq t u)) [
      | inl e ↦ rw e refl
      | inr e ↦ rw e refl
    ]

  pub handled_active :
      (grace now last : ℕ) (b : Bool) (a : AgentRecord) (fleet : Fleet)
      → get_agent fleet.agents a.name ≡ some a
      → state_eq a.state active ≡ true
      → handle_idle_transitions grace now last a b fleet
        ≡ (if b && leb grace (now - last) then moved idle "idle_detected" now a fleet else fleet)
  unfolding handle_idle_transitions
  handled_active grace now last false a fleet h e = rw (e, active_not_idle a.state e) refl
  handled_active grace now last true a fleet h e =
      rw (e, h) (rw e (swap_test grace (now - last) fleet (moved idle "idle_detected" now a fleet)))

  pub handled_idle :
      (grace now last : ℕ) (b : Bool) (a : AgentRecord) (fleet : Fleet)
      → get_agent fleet.agents a.name ≡ some a
      → state_eq a.state idle ≡ true
      → handle_idle_transitions grace now last a b fleet
        ≡ (if b then fleet else moved active "activity_detected" now a fleet)
  unfolding handle_idle_transitions
  handled_idle grace now last true a fleet h e = rw (idle_not_active a.state e, e) refl
  handled_idle grace now last false a fleet h e = rw (idle_not_active a.state e, e, h) (rw e refl)

  pub handled_other :
      (grace now last : ℕ) (b : Bool) (a : AgentRecord) (fleet : Fleet)
      → state_eq a.state active ≡ false
      → state_eq a.state idle ≡ false
      → handle_idle_transitions grace now last a b fleet ≡ fleet
  unfolding handle_idle_transitions
  handled_other grace now last b a fleet e i = rw (e, i) refl
