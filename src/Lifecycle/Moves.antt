-- ===== src/Lifecycle/Moves.antt =====
-- Which changes of state the operations of src/orchestrator/lifecycle.ts make.
use agentic_collab.Common.{
  ℕ, String, ◌≡◌, refl, sym, Bool, true, ◌||◌, Option, none, some, str_eq, arith, inl, inr,
  Bool-cases, subst, List, [], update, find-update, find_holds, or_else, Option-cases,
}
use agentic_collab.Shared.Agent.{
  AgentState, void, spawning, resuming, suspending, active, idle, suspended, failed, AgentRecord,
  Placement, placed, unavailable, state_eq, require_proxy, can_suspend,
}
use agentic_collab.Shared.Agent.Entity.{eq_of_state_eq}
use agentic_collab.Database.Agents.{
  Extra, get_agent, named, set_var, with_vars, update_agent_captured_var, delete_agent,
}
use agentic_collab.Lifecycle.Fleet.{
  Fleet, fleet_of, send, kill_session, touched, Operation, spawn, resume, suspend, reload, recover,
  intermediate, Answer, succeeded, unsuccessful, rejected,
}
use agentic_collab.Lifecycle.Phases.{
  spawn_agent, begin_spawn, write_placed, begin_on, begin_resume, begin_suspend, begin_reload,
  begin_recover, settle, finalize_to_active, finish, finish_spawn, finish_resume, finish_suspend,
  finish_reload, finish_recover, kill_stuck, failure_extra, fail_from, mark_failed, watchdog,
}
use agentic_collab.Lifecycle.Single.{
  queue_on, queued_extra, killed_extra, queue_reload, after_kill, kill_placed, kill_on, kill_agent,
  Compaction, skipped, dispatched, dispatch_rejected, after_compact, compact_placed, compact_on,
  compact_agent, store_session, store_var, store_captured, delete_row, after_last_kill,
  kill_before_delete, destroy_on, destroy_agent,
}
use agentic_collab.Lifecycle.Steps.{
  Move, start_spawn, start_resume, start_suspend, start_reload, start_recover, conclude,
  fail_creation, time_out, queue, kill, compact, destroy, store, subject, move,
}
use agentic_collab.Lifecycle.Machine.{
  IsMove, stays, respawns, arrives, rests, fails, is_killed, wakes, Change, same, removed, noted,
  noted_wrote, Changes, write_agent_found, logged_change, write_agent-Change, startable, resumable,
  suspendable,
}

module _ (fleet : Fleet) (n : String) where
  spawn_agent_change :
      (proxy : String) (now : ℕ) (o : Option AgentRecord)
      → get_agent fleet.agents n ≡ o
      → Changes fleet n (spawn_agent fleet n proxy now o)
  unfolding spawn_agent
  spawn_agent_change proxy now none h = same
  spawn_agent_change proxy now (some a) h =
      elim (Bool-cases (state_eq a.state void || state_eq a.state failed)) [
        | inl e ↦ rw e (write_agent-Change fleet n a spawning _ h (startable a.state e))
        | inr e ↦ rw e same
      ]

  begin_spawn_change : (proxy : String) (now : ℕ) → Changes fleet n (begin_spawn fleet n proxy now)
  unfolding begin_spawn
  begin_spawn_change proxy now = elim (Bool-cases (str_eq proxy "")) [
    | inl e ↦ rw e same
    | inr e ↦ rw e (spawn_agent_change proxy now (get_agent fleet.agents n) refl)
  ]

  write_placed_change :
      (a : AgentRecord) (s : AgentState) (extra : String → Extra) (p : Placement)
      → get_agent fleet.agents n ≡ some a
      → IsMove a.state s
      → Changes fleet n (write_placed fleet a n s extra p)
  unfolding write_placed
  write_placed_change a s extra (placed p) h mv = write_agent-Change fleet n a s (extra p) h mv
  write_placed_change a s extra (unavailable e) h mv = same

  begin_on_change :
      (allowed : AgentRecord → Bool) (s : AgentState) (extra : String → Extra)
      (o : Option AgentRecord)
      → ((a : AgentRecord) → allowed a ≡ true → IsMove a.state s)
      → get_agent fleet.agents n ≡ o
      → Changes fleet n (begin_on fleet n allowed s extra o)
  unfolding begin_on
  begin_on_change allowed s extra none ok h = same
  begin_on_change allowed s extra (some a) ok h = elim (Bool-cases (allowed a)) [
    | inl e ↦ rw e (write_placed_change a s extra _ h (ok a e))
    | inr e ↦ rw e same
  ]

  settle_change :
      (from to : AgentState) (interrupted : String) (extra : Extra) (event : String)
      (o : Option AgentRecord)
      → IsMove from to
      → get_agent fleet.agents n ≡ o
      → Changes fleet n (settle fleet n from to interrupted extra event o)
  unfolding settle
  settle_change from to interrupted extra event none mv h = same
  settle_change from to interrupted extra event (some a) mv h =
      elim (Bool-cases (state_eq a.state from)) [
        | inl e ↦ rw e (
            logged_change fleet n event a to extra h
              (subst (λ t. IsMove t to) (sym (eq_of_state_eq a.state from e)) mv))
        | inr e ↦ rw e same
      ]

  finish_change : (op : Operation) (extra : Extra) → Changes fleet n (finish fleet op n extra)
  unfolding finish finish_spawn finish_resume finish_suspend finish_reload finish_recover
      finalize_to_active
  finish_change spawn extra = settle_change spawning active _ extra _ _ (arrives spawn) refl
  finish_change resume extra = settle_change resuming active _ extra _ _ (arrives resume) refl
  finish_change suspend extra = settle_change suspending suspended _ extra _ _ rests refl
  finish_change reload extra = settle_change suspending active _ extra _ _ (arrives reload) refl
  finish_change recover extra = settle_change spawning active _ extra _ _ (arrives recover) refl

  fail_from-Change :
      (op : Operation) (reason event : String) (now : ℕ) (o : Option AgentRecord)
      → get_agent fleet.agents n ≡ o
      → Change fleet.agents n (fail_from fleet n (intermediate op) reason event now o).agents
  unfolding fail_from
  fail_from-Change op reason event now none h = same
  fail_from-Change op reason event now (some a) h =
      elim (Bool-cases (state_eq a.state (intermediate op))) [
        | inl e ↦ rw e (
            logged_change fleet n event a failed (failure_extra reason now) h (
              subst (λ t. IsMove t failed) (sym (eq_of_state_eq a.state (intermediate op) e))
                (fails op)))
        | inr e ↦ rw e same
      ]

  mark_failed-Change :
      (op : Operation) (reason event : String) (now : ℕ)
      → Change fleet.agents n (mark_failed fleet n (intermediate op) reason event now).agents
  unfolding mark_failed
  mark_failed-Change op reason event now =
      fail_from-Change op reason event now (get_agent fleet.agents n) refl

  pub agents-kill_stuck :
      (stuck : Bool) (proxy tmux : String) (f : Fleet)
      → (kill_stuck stuck proxy tmux f).agents ≡ f.agents
  unfolding kill_stuck
  agents-kill_stuck stuck proxy tmux f = ground arith

  watchdog-Change :
      (op : Operation) (timeout_ms : ℕ) (proxy tmux : String) (now : ℕ)
      → Change fleet.agents n (watchdog fleet n (intermediate op) timeout_ms proxy tmux now).agents
  unfolding watchdog
  watchdog-Change op timeout_ms proxy tmux now =
      rw agents-kill_stuck (mark_failed-Change op _ _ now)

  queue_change :
      (task : Option String) (o : Option AgentRecord)
      → get_agent fleet.agents n ≡ o
      → Changes fleet n (queue_on fleet n task o)
  unfolding queue_on
  queue_change task none h = same
  queue_change task (some a) h = elim (Bool-cases (can_suspend a)) [
    | inl e ↦
        rw e (logged_change fleet n "reload_queued" a a.state (queued_extra task) h (stays a.state))
    | inr e ↦ rw e same
  ]

  after_kill_change :
      (a : AgentRecord) (now : ℕ) (answer : Answer)
      → get_agent fleet.agents n ≡ some a
      → Changes fleet n (after_kill fleet a n now answer)
  unfolding after_kill
  after_kill_change a now succeeded h =
      logged_change fleet n "killed" a suspended (killed_extra now) h (is_killed a.state)
  after_kill_change a now (unsuccessful m) h =
      logged_change fleet n "killed" a suspended (killed_extra now) h (is_killed a.state)
  after_kill_change a now (rejected m) h = same

module _ (fleet : Fleet) (n : String) where
  kill_change :
      (now : ℕ) (answer : Answer) (o : Option AgentRecord)
      → get_agent fleet.agents n ≡ o
      → Changes fleet n (kill_on (λ f. f) fleet n now answer o)
  unfolding kill_on kill_placed
  kill_change now answer none h = same
  kill_change now answer (some a) h = go (require_proxy a (some fleet.registered))
    where
      go : (p : Placement) → Changes fleet n (kill_placed (λ f. f) fleet a n now answer p)
      go (placed p) = after_kill_change _ n a now answer h
      go (unavailable e) = same

  compact_change :
      (now : ℕ) (hook : Compaction) (o : Option AgentRecord)
      → get_agent fleet.agents n ≡ o
      → Changes fleet n (compact_on (λ f. f) fleet n now hook o)
  unfolding compact_on compact_placed after_compact
  compact_change now hook none h = same
  compact_change now hook (some a) h = go hook (require_proxy a (some fleet.registered))
    where
      go :
          (c : Compaction) (p : Placement)
          → Changes fleet n (compact_placed (λ f. f) fleet a n now c p)
      go c (unavailable e) = same
      go skipped (placed p) = same
      go (dispatch_rejected e) (placed p) = same
      go dispatched (placed p) = elim (Bool-cases (state_eq a.state idle)) [
        | inl e ↦ rw e (
            logged_change fleet n "compact_requested" a active (touched now) h
              (subst (λ t. IsMove t active) (sym (eq_of_state_eq a.state idle e)) wakes))
        | inr e ↦ rw e same
      ]

  destroy_change :
      (profile : Option String) (answer : Answer) (o : Option AgentRecord)
      → Changes fleet n (destroy_on fleet n profile answer o)
  unfolding destroy_on kill_before_delete after_last_kill delete_row delete_agent
  destroy_change profile answer none = same
  destroy_change profile answer (some a) = go a.proxy_id a.tmux_session
    where
      answered :
          (p t : String) (ans : Answer)
          → Change fleet.agents n
              (fleet_of (after_last_kill (send p (kill_session t) fleet) a n profile ans)).agents
      answered p t succeeded = removed
      answered p t (unsuccessful e) = removed
      answered p t (rejected e) = same

      go : (p t : Option String) → Changes fleet n (kill_before_delete fleet a n profile answer p t)
      go none t = removed
      go (some p) none = removed
      go (some p) (some t) = elim (Bool-cases (str_eq p "" || str_eq t "")) [
        | inl e ↦ rw e removed
        | inr e ↦ rw e (answered p t answer)
      ]

-- A captured variable is stored.
module _ (fleet : Fleet) (n var value : String) where
  vars_of : AgentRecord → List (String × String)
  vars_of a = set_var var value (or_else a.captured_vars [])

  store_var_found :
      (a : AgentRecord)
      → get_agent fleet.agents n ≡ some a
      → store_var fleet n var value
        ≡ record fleet { agents = update (named n) (with_vars (vars_of a)) fleet.agents }
  unfolding store_var update_agent_captured_var vars_of
  store_var_found a h = rw (h, update_agent_captured_var) refl

  store_var_missing : get_agent fleet.agents n ≡ none → store_var fleet n var value ≡ fleet
  unfolding store_var update_agent_captured_var
  store_var_missing h = rw (h, update_agent_captured_var) refl

  get-noted :
      (a : AgentRecord) (vs : List (String × String))
      → get_agent fleet.agents n ≡ some a
      → get_agent (update (named n) (with_vars vs) fleet.agents) n ≡ some (with_vars vs a)
  unfolding get_agent
  get-noted a vs h =
      rw (find-update (named n) (named n) (with_vars vs) (λ x. refl) fleet.agents)
        (rw h (rw (find_holds (named n) fleet.agents a h) refl))

  session_change :
      (a : AgentRecord) (vs : List (String × String))
      → get_agent fleet.agents n ≡ some a
      → let f = record fleet { agents = update (named n) (with_vars vs) fleet.agents } in
        Change fleet.agents n (store_session n value f (get_agent f.agents n)).agents
  unfolding store_session
  session_change a vs h =
      let g = get-noted a vs h in
      let f = record fleet { agents = update (named n) (with_vars vs) fleet.agents } in
      rw (g, store_session)
        (rw (write_agent_found f n (with_vars vs a) a.state _ g) (noted_wrote a vs _ h))

  store_change : Change fleet.agents n (store_captured fleet n var value).agents
  unfolding store_captured
  store_change = elim (Option-cases (get_agent fleet.agents n)) [
    | inl h ↦ rw (store_var_missing h) (elim (Bool-cases (str_eq var "SESSION_ID")) [
      | inl e ↦ rw (e, h) (unfold store_session in same)
      | inr e ↦ rw e same
    ])
    | inr (a, h) ↦ rw (store_var_found a h) (elim (Bool-cases (str_eq var "SESSION_ID")) [
      | inl e ↦ rw e (session_change a (vars_of a) h)
      | inr e ↦ rw e (noted a (vars_of a) h)
    ])
  ]

-- Whatever the operation, the rows of other agents stay as they are, and the row of its agent stays
-- too, goes, takes a captured variable, or is written at the version read, along the state machine.
pub move_changes :
    (fleet : Fleet) (m : Move) → Change fleet.agents (subject m) (move fleet m).agents
unfolding move begin_resume begin_suspend begin_reload begin_recover queue_reload kill_agent
    compact_agent destroy_agent
move_changes fleet (start_spawn n proxy now) = begin_spawn_change fleet n proxy now
move_changes fleet (start_resume n now) = begin_on_change fleet n _ _ _ _ resumable refl
move_changes fleet (start_suspend n now) = begin_on_change fleet n _ _ _ _ suspendable refl
move_changes fleet (start_reload n now) = begin_on_change fleet n _ _ _ _ suspendable refl
move_changes fleet (start_recover n now) =
    begin_on_change fleet n _ _ _ _
      (λ a e. subst (λ t. IsMove t spawning) (sym (eq_of_state_eq a.state failed e)) respawns) refl
move_changes fleet (conclude op n session tmux spawn_count now) = finish_change fleet n op _
move_changes fleet (fail_creation op n reason event now) =
    mark_failed-Change fleet n op reason event now
move_changes fleet (time_out op n timeout_ms proxy tmux now) =
    watchdog-Change fleet n op timeout_ms proxy tmux now
move_changes fleet (queue n task) = queue_change fleet n task _ refl
move_changes fleet (kill n now answer) = kill_change fleet n now answer _ refl
move_changes fleet (compact n now hook) = compact_change fleet n now hook _ refl
move_changes fleet (destroy n profile answer) = destroy_change fleet n profile answer _
move_changes fleet (store n var value) = store_change fleet n var value
