-- ===== src/Lifecycle/Network/Shutdowns.antt =====
-- What `shutdownAgents` of src/orchestrator/network.ts leaves in the row of a running agent.
use agentic_collab.Common.{
  ◌≡◌, ◌≢◌, refl, ap, sym, ◌∙◌, ℕ, String, Bool, true, false, Option, none, some, List, [], ◌∷◌,
  str_eq, eq_iff, eq_refl, select, find, map, All, All-select, IsDistinct, IsDistinct-select, inl,
  inr, Bool-cases, arith, false_ne_true, subst,
}
use agentic_collab.Shared.Agent.{suspended, AgentRecord, is_running}
use agentic_collab.Database.Agents.{get_agent, named, set_state}
use agentic_collab.Database.Agents.Versions.{written, get-written_self, get-written_ne}
use agentic_collab.Lifecycle.Fleet.{Fleet, done, fleet_of, log_event}
use agentic_collab.Lifecycle.Machine.{write_agent_found}
use agentic_collab.Lifecycle.Network.{
  shutdown_extra, shutdown_agent, shutdown_each, shutdown_agents,
}

-- The row that a shutdown makes of an agent's.
abbrev pub shut : ℕ → AgentRecord → AgentRecord
shut now a = set_state suspended (shutdown_extra a now) a

abbrev name_of : AgentRecord → String
name_of a = a.name

-- The row is in the table under its name.
abbrev Stored : List AgentRecord → AgentRecord → Type 0
Stored agents a = get_agent agents a.name ≡ some a

shutdown_agent-Stored :
    (fleet : Fleet) (now : ℕ) (a : AgentRecord)
    → Stored fleet.agents a
    → shutdown_agent fleet now a
      ≡ done (shut now a) (
          log_event a.name "shutdown_suspended" (record fleet {
            agents = written fleet.agents a.name suspended (shutdown_extra a now) a.version;
          }))
unfolding shutdown_agent
shutdown_agent-Stored fleet now a h =
    rw (write_agent_found fleet a.name a suspended (shutdown_extra a now) h) refl

after_shut : Fleet → ℕ → AgentRecord → List AgentRecord
after_shut fleet now a = written fleet.agents a.name suspended (shutdown_extra a now) a.version

Stored-others :
    (fleet : Fleet) (now : ℕ) (a : AgentRecord) (bs : List AgentRecord)
    → All (λ m. m ≢ a.name) (map name_of bs)
    → All (Stored fleet.agents) bs
    → All (Stored (after_shut fleet now a)) bs
unfolding after_shut
Stored-others fleet now a [] d h = tt
Stored-others fleet now a (b ∷ bs) (n, d) (p, h) = (
  get-written_ne fleet.agents a.name suspended (shutdown_extra a now) a.version b.name
        (λ e. n (sym e))
      ∙ p,
  Stored-others fleet now a bs d h,
)

find_absent :
    (n : String) (bs : List AgentRecord)
    → All (λ m. m ≢ n) (map name_of bs)
    → find (named n) bs ≡ none
find_absent n [] d = refl
find_absent n (b ∷ bs) (e, d) = ground (arith, eq_iff b.name n, find_absent n bs d)

abbrev found_or : Option AgentRecord → ℕ → Option AgentRecord → Option AgentRecord
found_or none now o = o
found_or (some a) now o = some (shut now a)

-- The first row of the loop, seen from the rows after it.
first_or_later :
    (fleet : Fleet) (now : ℕ) (a : AgentRecord) (bs : List AgentRecord) (n : String)
    → All (λ m. m ≢ a.name) (map name_of bs)
    → Stored fleet.agents a
    → found_or (find (named n) bs) now (get_agent (after_shut fleet now a) n)
      ≡ found_or (find (named n) (a ∷ bs)) now (get_agent fleet.agents n)
unfolding after_shut
first_or_later fleet now a bs n x p = elim (Bool-cases (str_eq a.name n)) [
  | inl t ↦
      let same : a.name ≡ n = (eq_iff a.name n).0 t in
      let none_left : find (named n) bs ≡ none =
        find_absent n bs (subst (λ k. All (λ m. m ≢ k) (map name_of bs)) same x) in
      rw (none_left, t)
        (subst
          (λ k.
            get_agent (written fleet.agents a.name suspended (shutdown_extra a now) a.version) k
            ≡ some (shut now a))
          same (get-written_self fleet.agents a.name suspended (shutdown_extra a now) a p))
  | inr t ↦
      let apart : a.name ≢ n = λ e. false_ne_true t ((eq_iff a.name n).1 e) in
      rw (t, get-written_ne fleet.agents a.name suspended (shutdown_extra a now) a.version n apart)
        refl
]

shutdown_each_row :
    (now : ℕ) (todo : List AgentRecord) (fleet : Fleet) (n : String)
    → IsDistinct (map name_of todo)
    → All (Stored fleet.agents) todo
    → get_agent (shutdown_each now todo fleet).1.agents n
      ≡ found_or (find (named n) todo) now (get_agent fleet.agents n)
unfolding shutdown_each after_shut
shutdown_each_row now [] fleet n d h = refl
shutdown_each_row now (a ∷ bs) fleet n (x, d) (p, h) =
    let fleet1 : Fleet = fleet_of (shutdown_agent fleet now a) in
    let e : fleet1.agents ≡ after_shut fleet now a =
      ap (λ r. (fleet_of r).agents) (shutdown_agent-Stored fleet now a p) in
    let ih : get_agent (shutdown_each now bs fleet1).1.agents n
        ≡ found_or (find (named n) bs) now (get_agent fleet1.agents n) =
      shutdown_each_row now bs fleet1 n d
        (subst (λ agents. All (Stored agents) bs) (sym e) (Stored-others fleet now a bs x h)) in
    ih
    ∙ ap (λ agents. found_or (find (named n) bs) now (get_agent agents n)) e
    ∙ first_or_later fleet now a bs n x p

-- A row found by a test passes the selection too, where it passes the selection's test.
find-select :
    (p q : AgentRecord → Bool) (xs : List AgentRecord) (a : AgentRecord)
    → find p xs ≡ some a
    → q a ≡ true
    → find p (select q xs) ≡ some a
find-select p q [] a h k = cc
find-select p q (x ∷ xs) a h k = ground (arith, find-select p q xs a)

not_same : (x b : AgentRecord) → b.name ≢ x.name → str_eq x.name b.name ≡ false
not_same x b n = elim (Bool-cases (str_eq x.name b.name)) [
  | inl t ↦ absurd (n (sym ((eq_iff x.name b.name).0 t)))
  | inr t ↦ t
]

-- In a table without two rows of a name, every row is the one that is found.
Stored-after :
    (x : AgentRecord) (xs bs : List AgentRecord)
    → All (λ m. m ≢ x.name) (map name_of bs)
    → All (Stored xs) bs
    → All (Stored (x ∷ xs)) bs
unfolding get_agent
Stored-after x xs [] d h = tt
Stored-after x xs (b ∷ bs) (n, d) (p, h) = (rw (not_same x b n) p, Stored-after x xs bs d h)

All-Stored : (xs : List AgentRecord) → IsDistinct (map name_of xs) → All (Stored xs) xs
unfolding get_agent
All-Stored [] d = tt
All-Stored (x ∷ xs) (n, d) = (rw (eq_refl x.name) refl, Stored-after x xs xs n (All-Stored xs d))

pub shutdown_row :
    (now : ℕ) (fleet : Fleet) (n : String) (a : AgentRecord)
    → IsDistinct (map name_of fleet.agents)
    → get_agent fleet.agents n ≡ some a
    → is_running a ≡ true
    → get_agent (shutdown_agents now fleet).1.agents n ≡ some (shut now a)
unfolding shutdown_agents get_agent
shutdown_row now fleet n a d h k =
    shutdown_each_row now (select is_running fleet.agents) fleet n
      (IsDistinct-select name_of is_running fleet.agents d)
      (All-select (Stored fleet.agents) is_running fleet.agents (All-Stored fleet.agents d))
    ∙ ap (λ o. found_or o now (get_agent fleet.agents n))
        (find-select (named n) is_running fleet.agents a h k)
