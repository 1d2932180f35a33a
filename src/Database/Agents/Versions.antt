-- ===== src/Database/Agents/Versions.antt =====
-- Optimistic concurrency of `updateAgentState` (src/orchestrator/database.ts).
use agentic_collab.Common.{
  ℕ, ◌+◌, String, ◌≡◌, ◌≢◌, refl, sym, ap, ◌∙◌, true, false, Option, none, some, List, ◌==◌, str_eq,
  eq_iff, arith, inl, inr, find, update, count, Bool-cases, Option-cases, ==_refl, find-update,
  subst, map, map-update, map_option, or_else, ==_iff, count_of_find, find_holds, if◌then◌else◌,
}
use agentic_collab.Shared.Agent.{AgentState, AgentRecord}
use agentic_collab.Database.Agents.{
  DbError, version_conflict, agent_not_found, ok, err, Extra, named, get_agent, set_state,
  at_version, write_state, update_agent_state,
}

pub name-set_state :
    (s : AgentState) (x : Extra) (a : AgentRecord) → (set_state s x a).name ≡ a.name
unfolding set_state
name-set_state s x a = refl

pub version-set_state :
    (s : AgentState) (x : Extra) (a : AgentRecord) → (set_state s x a).version ≡ a.version + 1
unfolding set_state
version-set_state s x a = refl

pub name-get_agent :
    (agents : List AgentRecord) (n : String) (a : AgentRecord)
    → get_agent agents n ≡ some a
    → a.name ≡ n
unfolding get_agent
name-get_agent agents n a h = (eq_iff a.name n).0 (find_holds (named n) agents a h)

at_version_ne :
    (n m : String) (e : ℕ) (a : AgentRecord) → n ≢ m → a.name ≡ m → at_version n e a ≡ false
at_version_ne n m e a d h = ground (arith, eq_iff a.name n)

module _ (agents : List AgentRecord) (n : String) (s : AgentState) (x : Extra) where
  pub written : ℕ → List AgentRecord
  written e = update (at_version n e) (set_state s x) agents

  pub get-written_self :
      (a : AgentRecord)
      → get_agent agents n ≡ some a
      → get_agent (written a.version) n ≡ some (set_state s x a)
  unfolding get_agent written
  get-written_self a h =
      let key : str_eq a.name n ≡ true = find_holds (named n) agents a h in
      rw
        (find-update (named n) (at_version n a.version) (set_state s x)
          (λ b. ap (λ k. str_eq k n) (name-set_state s x b)) agents)
        (rw h (rw (key, ==_refl a.version) refl))

  pub get-written_ne : (e : ℕ) (m : String) → n ≢ m → get_agent (written e) m ≡ get_agent agents m
  unfolding get_agent written
  get-written_ne e m d =
      rw
        (find-update (named m) (at_version n e) (set_state s x)
          (λ b. ap (λ k. str_eq k m) (name-set_state s x b)) agents)
        (unchanged (find (named m) agents) refl)
    where
      unchanged :
          (o : Option AgentRecord)
          → find (named m) agents ≡ o
          → map_option (λ a. if at_version n e a then set_state s x a else a) o ≡ o
      unchanged none h = refl
      unchanged (some a) h =
          rw (at_version_ne n m e a d ((eq_iff a.name m).0 (find_holds (named m) agents a h))) refl

  found_count :
      (a : AgentRecord)
      → get_agent agents n ≡ some a
      → at_version n a.version a ≡ true
      → (count (at_version n a.version) agents == 0) ≡ false
  unfolding get_agent
  found_count a h k = count_of_find (named n) (at_version n a.version) agents a h k

  write_state_found :
      (a : AgentRecord)
      → get_agent agents n ≡ some a
      → write_state agents n s a.version x ≡ ok (set_state s x a, written a.version)
  unfolding write_state written
  write_state_found a h =
      let key : str_eq a.name n ≡ true = (eq_iff a.name n).1 (name-get_agent agents n a h) in
      rw (found_count a h (rw (key, ==_refl a.version) refl), get-written_self a h, write_state)
        refl

  pub update_agent_state_found :
      (a : AgentRecord)
      → get_agent agents n ≡ some a
      → update_agent_state agents n s a.version x ≡ ok (set_state s x a, written a.version)
  unfolding update_agent_state
  update_agent_state_found a h =
      rw (h, update_agent_state) (rw (==_refl a.version) (write_state_found a h))

  pub update_agent_state_missing :
      (e : ℕ)
      → get_agent agents n ≡ none
      → update_agent_state agents n s e x ≡ err (agent_not_found n)
  unfolding update_agent_state
  update_agent_state_missing e h = rw (h, update_agent_state) refl

  pub update_agent_state_stale :
      (e : ℕ) (a : AgentRecord)
      → get_agent agents n ≡ some a
      → (a.version == e) ≡ false
      → update_agent_state agents n s e x ≡ err (version_conflict e a.version)
  unfolding update_agent_state
  update_agent_state_stale e a h d = rw (h, update_agent_state) (rw d refl)

-- A column that is given takes its new value, and one that is not keeps its own.
abbrev IsGiven {ℓ} : {A : Type ℓ} → Option A → A → A → Type ℓ
IsGiven none old new = new ≡ old
IsGiven (some v) old new = new ≡ v

-- The columns beside the state and the version.
pub record IsFilled (before : AgentRecord) (x : Extra) (r : AgentRecord) : Type 0 where
  pub session : IsGiven x.current_session_id before.current_session_id r.current_session_id
  pub pane : IsGiven x.tmux_session before.tmux_session r.tmux_session
  pub proxy : IsGiven x.proxy_id before.proxy_id r.proxy_id
  pub activity : IsGiven x.last_activity before.last_activity r.last_activity
  pub context : IsGiven x.last_context_pct before.last_context_pct r.last_context_pct
  pub queued : IsGiven x.reload_queued before.reload_queued r.reload_queued
  pub task : IsGiven x.reload_task before.reload_task r.reload_task
  pub failure : IsGiven x.failed_at before.failed_at r.failed_at
  pub reason : IsGiven x.failure_reason before.failure_reason r.failure_reason
  pub mark : IsGiven x.state_before_shutdown before.state_before_shutdown r.state_before_shutdown
  pub spawns : IsGiven x.spawn_count before.spawn_count r.spawn_count
  pub group : IsGiven x.agent_group before.config.agent_group r.config.agent_group
  pub name : r.name ≡ before.name
  pub vars : r.captured_vars ≡ before.captured_vars

given {ℓ} : {A : Type ℓ} (o : Option A) (old : A) → IsGiven o old (or_else o old)
given none old = refl
given (some v) old = refl

set_state-IsFilled : (s : AgentState) (x : Extra) (a : AgentRecord) → IsFilled a x (set_state s x a)
unfolding set_state
set_state-IsFilled s x a = record {
  session = given x.current_session_id a.current_session_id;
  pane = given x.tmux_session a.tmux_session;
  proxy = given x.proxy_id a.proxy_id;
  activity = given x.last_activity a.last_activity;
  context = given x.last_context_pct a.last_context_pct;
  queued = given x.reload_queued a.reload_queued;
  task = given x.reload_task a.reload_task;
  failure = given x.failed_at a.failed_at;
  reason = given x.failure_reason a.failure_reason;
  mark = given x.state_before_shutdown a.state_before_shutdown;
  spawns = given x.spawn_count a.spawn_count;
  group = given x.agent_group a.config.agent_group;
  name = refl;
  vars = refl;
}

set_state_state : (s : AgentState) (x : Extra) (a : AgentRecord) → (set_state s x a).state ≡ s
unfolding set_state
set_state_state s x a = refl

-- What a write of `state` at version `e` leaves behind.
pub record IsUpdate (agents agents' : List AgentRecord) (n : String) (s : AgentState) (e : ℕ)
    (x : Extra) (r : AgentRecord) : Type 0 where
  pub before : AgentRecord
  pub found : get_agent agents n ≡ some before
  pub current : before.version ≡ e
  pub row : r ≡ set_state s x before
  pub new_state : r.state ≡ s
  pub settings : IsFilled before x r
  pub next_version : r.version ≡ e + 1
  pub stored : get_agent agents' n ≡ some r
  pub others : (m : String) → n ≢ m → get_agent agents' m ≡ get_agent agents m
  pub names : map (λ (a : AgentRecord). a.name) agents' ≡ map (λ (a : AgentRecord). a.name) agents

names-written :
    (agents : List AgentRecord) (n : String) (s : AgentState) (x : Extra) (e : ℕ)
    → map (λ (a : AgentRecord). a.name) (written agents n s x e)
      ≡ map (λ (a : AgentRecord). a.name) agents
unfolding written
names-written agents n s x e =
    map-update (λ (a : AgentRecord). a.name) (at_version n e) (set_state s x) (name-set_state s x)
      agents

pub written-IsUpdate :
    (agents : List AgentRecord) (n : String) (s : AgentState) (x : Extra) (a : AgentRecord)
    → get_agent agents n ≡ some a
    → IsUpdate agents (written agents n s x a.version) n s a.version x (set_state s x a)
written-IsUpdate agents n s x a h = record {
  before = a;
  found = h;
  current = refl;
  row = refl;
  new_state = set_state_state s x a;
  settings = set_state-IsFilled s x a;
  next_version = version-set_state s x a;
  stored = get-written_self agents n s x a h;
  others = get-written_ne agents n s x a.version;
  names = names-written agents n s x a.version;
}

pub ok_ne_err {ℓ} : {A : Type ℓ} {a : A} {c : DbError} → ok a ≢ err c
ok_ne_err h = cc

pub ok_inj {ℓ} : {A : Type ℓ} {a b : A} → ok a ≡ ok b → a ≡ b
ok_inj {a} h = ap (λ r. elim r [ ok v ↦ v | err c ↦ a ]) h

-- A write that succeeds found the agent at the expected version, stores the row with the new state,
-- the next version and the columns that were given, the others kept, and changes no other agent and
-- no key.
pub update_agent_state-IsUpdate :
    (agents agents' : List AgentRecord) (n : String) (s : AgentState) (e : ℕ) (x : Extra)
    (r : AgentRecord)
    → update_agent_state agents n s e x ≡ ok (r, agents')
    → IsUpdate agents agents' n s e x r
update_agent_state-IsUpdate agents agents' n s e x r h = elim (Option-cases (get_agent agents n)) [
  | inl g ↦ absurd (ok_ne_err (sym h ∙ update_agent_state_missing agents n s x e g))
  | inr (a, g) ↦ elim (Bool-cases (a.version == e)) [
    | inl t ↦
        let same : a.version ≡ e = (==_iff a.version e).0 t in
        let run =
          subst
            (λ v. update_agent_state agents n s v x ≡ ok (set_state s x a, written agents n s x v))
            same (update_agent_state_found agents n s x a g) in
        subst (λ p. IsUpdate agents p.1 n s e x p.0) (ok_inj (sym run ∙ h))
          (subst (λ v. IsUpdate agents (written agents n s x v) n s v x (set_state s x a)) same
            (written-IsUpdate agents n s x a g))
    | inr t ↦ absurd (ok_ne_err (sym h ∙ update_agent_state_stale agents n s x e a g t))
  ]
]

-- Of two writes that expect the same version of an agent, the second is refused once the first has
-- succeeded, whatever they write: no update is lost.
pub update_agent_state_twice :
    (agents agents' : List AgentRecord) (n : String) (s t : AgentState) (e : ℕ) (x y : Extra)
    (r : AgentRecord)
    → update_agent_state agents n s e x ≡ ok (r, agents')
    → update_agent_state agents' n t e y ≡ err (version_conflict e (e + 1))
update_agent_state_twice agents agents' n s t e x y r h =
    let u = update_agent_state-IsUpdate agents agents' n s e x r h in
    subst (λ v. update_agent_state agents' n t e y ≡ err (version_conflict e v)) u.next_version
      (update_agent_state_stale agents' n t y e r u.stored (rw u.next_version (ground arith)))
