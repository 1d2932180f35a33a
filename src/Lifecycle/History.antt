-- ===== src/Lifecycle/History.antt =====
-- What happens to one agent's row over the steps of src/orchestrator/lifecycle.ts.
use agentic_collab.Common.{
  ◌<◌, String, ◌≡◌, ◌⊎◌, refl, sym, ◌∙◌, not, Option, none, some, List, [], ◌∷◌, str_eq, eq_iff,
  if◌then◌else◌, arith, inl, inr, Bool-cases, subst, find, select, update, find-update, map_option,
  ap, true, false, some_inj, none_ne_some, false_ne_true, Option-cases,
}
use agentic_collab.Shared.Agent.{AgentState, AgentRecord}
use agentic_collab.Database.Agents.{Extra, named, get_agent, set_state, delete_agent_row, with_vars}
use agentic_collab.Database.Agents.Versions.{written, written-IsUpdate, name-get_agent}
use agentic_collab.Lifecycle.Fleet.{Fleet}
use agentic_collab.Lifecycle.Steps.{Move, subject, move, moves}
use agentic_collab.Lifecycle.Machine.{
  IsMove, stays, Change, same, wrote, removed, noted, noted_wrote,
}
use agentic_collab.Lifecycle.Moves.{move_changes}

find-delete :
    (k n : String) (agents : List AgentRecord)
    → find (named n) (select (λ a. not (named k a)) agents)
      ≡ (if str_eq k n then none else find (named n) agents)
find-delete k n [] = ground arith
find-delete k n (a ∷ agents) =
    ground (arith, find-delete k n agents, eq_iff k n, eq_iff a.name k, eq_iff a.name n)

-- What one step can make of a row.
pub data Later (a : AgentRecord) : Option AgentRecord → Type 0 where
  gone : Later a none
  kept : Later a (some a)
  moved : (s : AgentState) (x : Extra) → IsMove a.state s → Later a (some (set_state s x a))
  captures : (vars : List (String × String)) → Later a (some (with_vars vars a))
  captures_moved :
      (vars : List (String × String)) (s : AgentState) (x : Extra)
      → IsMove a.state s
      → Later a (some (set_state s x (with_vars vars a)))

-- The row takes captured variables.
module _ (agents : List AgentRecord) (k n : String) (vars : List (String × String)) where
  get-noted_if :
      get_agent (update (named k) (with_vars vars) agents) n
      ≡ map_option (λ c. if named k c then with_vars vars c else c) (get_agent agents n)
  unfolding get_agent
  get-noted_if = find-update (named n) (named k) (with_vars vars) (λ c. refl) agents

  get-noted_self :
      (a : AgentRecord)
      → get_agent agents n ≡ some a
      → k ≡ n
      → get_agent (update (named k) (with_vars vars) agents) n ≡ some (with_vars vars a)
  get-noted_self a h e =
      get-noted_if
      ∙ rw h (
          rw
            (sym (
              subst (λ i. true ≡ str_eq a.name i) (sym e)
                (sym ((eq_iff a.name n).1 (name-get_agent agents n a h)))))
            refl)

  get-noted_ne :
      (a : AgentRecord)
      → get_agent agents n ≡ some a
      → str_eq k n ≡ false
      → get_agent (update (named k) (with_vars vars) agents) n ≡ some a
  get-noted_ne a h e = get-noted_if ∙ rw h (rw (other_name a (name-get_agent agents n a h)) refl)
    where
      other_name : (c : AgentRecord) → c.name ≡ n → str_eq c.name k ≡ false
      other_name c q = ground (arith, eq_iff c.name k, eq_iff k n, q, e)

module _ (agents : List AgentRecord) (k n : String) (a : AgentRecord)
    (h : get_agent agents n ≡ some a) where
  Later-written :
      (b : AgentRecord) (s : AgentState) (x : Extra)
      → get_agent agents k ≡ some b
      → IsMove b.state s
      → Later a (get_agent (written agents k s x b.version) n)
  Later-written b s x g mv = elim (Bool-cases (str_eq k n)) [
    | inl e ↦
        let same_key : k ≡ n = (eq_iff k n).0 e in
        let same_row : b ≡ a =
          some_inj (sym g ∙ subst (λ i. get_agent agents i ≡ some a) (sym same_key) h) in
        let u = written-IsUpdate agents k s x b g in
        subst (λ o. Later a o)
          (sym (
            subst (λ i. get_agent (written agents k s x b.version) i ≡ some (set_state s x b))
              same_key u.stored))
          (subst (λ c. Later a (some (set_state s x c))) (sym same_row)
            (moved s x (subst (λ c. IsMove c.state s) same_row mv)))
    | inr e ↦
        let u = written-IsUpdate agents k s x b g in
        rw (u.others n (λ q. false_ne_true e ((eq_iff k n).1 q))) (rw h kept)
  ]

  Later-noted :
      (vars : List (String × String))
      → Later a (get_agent (update (named k) (with_vars vars) agents) n)
  Later-noted vars = elim (Bool-cases (str_eq k n)) [
    | inl e ↦ rw (get-noted_self agents k n vars a h ((eq_iff k n).0 e)) (captures vars)
    | inr e ↦ rw (get-noted_ne agents k n vars a h e) kept
  ]

  Later-noted_wrote :
      (b : AgentRecord) (vars : List (String × String)) (x : Extra)
      → get_agent agents k ≡ some b
      → Later a
          (get_agent (written (update (named k) (with_vars vars) agents) k b.state x b.version) n)
  Later-noted_wrote b vars x g =
      let there = get-noted_self agents k k vars b g refl in
      let u =
        written-IsUpdate (update (named k) (with_vars vars) agents) k b.state x (with_vars vars b)
          there in
      elim (Bool-cases (str_eq k n)) [
        | inl e ↦
            let same_key : k ≡ n = (eq_iff k n).0 e in
            let same_row : b ≡ a =
              some_inj (sym g ∙ subst (λ i. get_agent agents i ≡ some a) (sym same_key) h) in
            subst
              (λ i. Later a (
                get_agent (written (update (named k) (with_vars vars) agents) k b.state x b.version)
                  i))
              same_key
              (rw u.stored (
                subst (λ c. Later a (some (set_state c.state x (with_vars vars c)))) (sym same_row)
                  (captures_moved vars a.state x (stays a.state))))
        | inr e ↦
            rw (u.others n (λ q. false_ne_true e ((eq_iff k n).1 q)))
              (rw (get-noted_ne agents k n vars a h e) kept)
      ]

  Later-deleted : Later a (get_agent (delete_agent_row agents k) n)
  unfolding delete_agent_row get_agent
  Later-deleted =
      rw (find-delete k n agents)
        (elim (Bool-cases (str_eq k n)) [ inl e ↦ rw e gone | inr e ↦ rw e (rw h kept) ])

  Change-Later :
      (agents' : List AgentRecord) → Change agents k agents' → Later a (get_agent agents' n)
  Change-Later agents' same = rw h kept
  Change-Later agents' (wrote b s x g mv) = Later-written b s x g mv
  Change-Later agents' removed = Later-deleted
  Change-Later agents' (noted b vars g) = Later-noted vars
  Change-Later agents' (noted_wrote b vars x g) = Later-noted_wrote b vars x g

pub move-Later :
    (fleet : Fleet) (m : Move) (n : String) (a : AgentRecord)
    → get_agent fleet.agents n ≡ some a
    → Later a (get_agent (move fleet m).agents n)
move-Later fleet m n a h =
    Change-Later fleet.agents (subject m) n a h (move fleet m).agents (move_changes fleet m)

Later-state :
    (a b : AgentRecord) (o : Option AgentRecord) → Later a o → o ≡ some b → IsMove a.state b.state
Later-state a b o gone e = absurd (none_ne_some e)
Later-state a b o kept e = subst (λ c. IsMove a.state c.state) (some_inj e) (stays a.state)
Later-state a b o (moved s x mv) e =
    subst (λ c. IsMove a.state c.state) (some_inj e) (unfold set_state in mv)
Later-state a b o (captures vars) e =
    subst (λ c. IsMove a.state c.state) (some_inj e) (stays a.state)
Later-state a b o (captures_moved vars s x mv) e =
    subst (λ c. IsMove a.state c.state) (some_inj e) (unfold set_state in mv)

-- Any step of a lifecycle operation, of its watchdog or of a hook's capture takes every agent that is there before and
-- after along an edge of the state machine `IsMove`, or leaves its state.
pub move-IsMove :
    (fleet : Fleet) (m : Move) (n : String) (a b : AgentRecord)
    → get_agent fleet.agents n ≡ some a
    → get_agent (move fleet m).agents n ≡ some b
    → IsMove a.state b.state
move-IsMove fleet m n a b h k = Later-state a b _ (move-Later fleet m n a h) k

deleted_absent :
    (agents : List AgentRecord) (k n : String)
    → get_agent agents n ≡ none
    → get_agent (delete_agent_row agents k) n ≡ none
unfolding delete_agent_row get_agent
deleted_absent agents k n h =
    rw (find-delete k n agents)
      (elim (Bool-cases (str_eq k n)) [ inl e ↦ rw e refl | inr e ↦ rw e h ])

absent_later :
    (fleet : Fleet) (m : Move) (n : String)
    → get_agent fleet.agents n ≡ none
    → get_agent (move fleet m).agents n ≡ none
absent_later fleet m n h = go (move fleet m).agents (move_changes fleet m)
  where
    written_absent :
        (b : AgentRecord) (s : AgentState) (x : Extra)
        → get_agent fleet.agents (subject m) ≡ some b
        → get_agent (written fleet.agents (subject m) s x b.version) n ≡ none
    written_absent b s x g =
        (written-IsUpdate fleet.agents (subject m) s x b g).others n
          (λ q. none_ne_some (sym h ∙ subst (λ i. get_agent fleet.agents i ≡ some b) q g))
        ∙ h

    noted_absent :
        (vars : List (String × String))
        → get_agent (update (named (subject m)) (with_vars vars) fleet.agents) n ≡ none
    noted_absent vars = get-noted_if fleet.agents (subject m) n vars ∙ rw h refl

    go :
        (agents' : List AgentRecord)
        → Change fleet.agents (subject m) agents'
        → get_agent agents' n ≡ none
    go agents' same = h
    go agents' (wrote b s x g mv) = written_absent b s x g
    go agents' removed = deleted_absent fleet.agents (subject m) n h
    go agents' (noted b vars g) = noted_absent vars
    go agents' (noted_wrote b vars x g) =
        (written-IsUpdate (update (named (subject m)) (with_vars vars) fleet.agents) (subject m)
            b.state x (with_vars vars b)
            (get-noted_self fleet.agents (subject m) (subject m) vars b g refl)).others
          n (λ q. none_ne_some (sym h ∙ subst (λ i. get_agent fleet.agents i ≡ some b) q g))
        ∙ noted_absent vars

absent_for_good :
    (fleet : Fleet) (ms : List Move) (n : String)
    → get_agent fleet.agents n ≡ none
    → get_agent (moves fleet ms).agents n ≡ none
unfolding moves
absent_for_good fleet [] n h = h
absent_for_good fleet (m ∷ ms) n h = absent_for_good (move fleet m) ms n (absent_later fleet m n h)

-- The same row, but for its captured variables.
abbrev pub IsSameRow : AgentRecord → AgentRecord → Type 0
IsSameRow a b = record b { captured_vars = a.captured_vars } ≡ a

Later-version :
    (a b : AgentRecord) (o : Option AgentRecord)
    → Later a o
    → o ≡ some b
    → IsSameRow a b ⊎ (a.version < b.version)
Later-version a b o gone e = absurd (none_ne_some e)
Later-version a b o kept e = inl (subst (λ c. IsSameRow a c) (some_inj e) refl)
Later-version a b o (moved s x mv) e =
    inr (subst (λ c. a.version < c.version) (some_inj e) (unfold set_state in omega arith))
Later-version a b o (captures vars) e = inl (subst (λ c. IsSameRow a c) (some_inj e) refl)
Later-version a b o (captures_moved vars s x mv) e =
    inr (subst (λ c. a.version < c.version) (some_inj e) (unfold set_state in omega arith))

IsSameRow-trans : (a b c : AgentRecord) → IsSameRow a c → IsSameRow c b → IsSameRow a b
IsSameRow-trans a b c p q =
    ap (λ (r : AgentRecord). record r { captured_vars = a.captured_vars }) q ∙ p

version-IsSameRow : (a b : AgentRecord) → IsSameRow a b → b.version ≡ a.version
version-IsSameRow a b p = ap (λ (r : AgentRecord). r.version) p

-- Over any sequence of lifecycle steps, captures by hooks among them, an agent's record changes, but
-- for its captured variables, only together with its version, which only grows: an agent that is
-- there before and after is the same record up to those variables, or has a later version.
pub moves_version :
    (fleet : Fleet) (ms : List Move) (n : String) (a b : AgentRecord)
    → get_agent fleet.agents n ≡ some a
    → get_agent (moves fleet ms).agents n ≡ some b
    → IsSameRow a b ⊎ (a.version < b.version)
unfolding moves
moves_version fleet [] n a b h k = inl (subst (λ c. IsSameRow a c) (some_inj (sym h ∙ k)) refl)
moves_version fleet (m ∷ ms) n a b h k = elim (Option-cases (get_agent (move fleet m).agents n)) [
  | inl e ↦ absurd (none_ne_some (sym (absent_for_good (move fleet m) ms n e) ∙ k))
  | inr (c, e) ↦
      join c (Later-version a c _ (move-Later fleet m n a h) e)
        (moves_version (move fleet m) ms n c b e k)
]
  where
    join :
        (c : AgentRecord)
        → IsSameRow a c ⊎ (a.version < c.version)
        → IsSameRow c b ⊎ (c.version < b.version)
        → IsSameRow a b ⊎ (a.version < b.version)
    join c (inl p) (inl q) = inl (IsSameRow-trans a b c p q)
    join c (inl p) (inr q) = inr (omega (arith, version-IsSameRow a c p, q))
    join c (inr p) (inl q) = inr (omega (arith, version-IsSameRow c b q, p))
    join c (inr p) (inr q) = inr (omega arith)
