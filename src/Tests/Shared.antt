-- ===== src/Tests/Shared.antt =====
-- Addresses, agents and locks (src/shared) at concrete inputs.
use agentic_collab.Common.{
  length, ◌≤◌, ℕ, ◌+◌, ◌*◌, ◌/◌, String, ◌≡◌, ◌≢◌, ◌⊎◌, ◌↔◌, refl, true, none, some, List, [], ◌∷◌,
  ◌++◌, arith, inr, eq_iff, false_ne_true, codes, find, All, false, any, str_eq,
}
use agentic_collab.Shared.Address.{
  str, agent, name_re, parse_address, address_to_string, agent_prefix,
}
use agentic_collab.Shared.Address.RoundTrip.{parse_address-agent_iff, parse-address_to_string}
use agentic_collab.Shared.Agent.{AgentConfig, AgentRecord, active, claude, placed, require_proxy}
use agentic_collab.Shared.Agent.Entity.{Declares, require_proxy-placed_iff}
use agentic_collab.Shared.Lock.{
  LockRow, Table, locks_agent, acquired, poll, is_locked, delete_expired, new_lock, lock_rounds,
}
use agentic_collab.Shared.Lock.Exclusion.{
  LockOp, try, release, RespectsRow, run_lock_ops, run_lock_ops_keeps, poll_cases,
}
use agentic_collab.Shared.Lock.Waiting.{lock_ends}
use agentic_collab.Shared.Sanitize.{sanitize_message, is_control}
use agentic_collab.Shared.Sanitize.Cleaning.{
  IsPlain, IsText, sanitize_message-IsText, sanitize_message-fixed_iff,
}
use agentic_collab.Shared.Sanitize.Sequences.{
  Piece, unit, sequence, title, render, units, sanitize_message-units,
}

parse_address-agent_iff_example :
    (parse_address (str (codes "agent:bob")) ≡ agent (codes "bob")) ↔ (
      (name_re (codes "bob") ≡ true)
      × ((codes "agent:bob" ≡ codes "bob")
          ⊎ (codes "agent:bob" ≡ agent_prefix ++ b':' ∷ codes "bob")))
parse_address-agent_iff_example = parse_address-agent_iff (codes "agent:bob") (codes "bob")

parse-address_to_string_example :
    parse_address (str (address_to_string (parse_address (str (codes "slack:bob")))))
    ≡ parse_address (str (codes "slack:bob"))
parse-address_to_string_example = parse-address_to_string (codes "slack:bob")

abbrev pub some_config : AgentConfig
some_config = record {
  engine = claude;
  model = some "opus";
  thinking = none;
  cwd = "/work";
  persona = none;
  permissions = none;
  agent_group = none;
  launch_env = none;
  account = none;
  proxy_pin = none;
  hook_start = none;
  hook_resume = none;
  hook_compact = none;
  hook_exit = none;
  hook_interrupt = none;
  hook_reload = none;
  hook_submit = none;
  custom_buttons = none;
  indicators = none;
  icon = none;
}

-- An active agent on the proxy `p1`.
abbrev pub bob : AgentRecord
bob = record {
  name = "bob";
  config = some_config;
  sort_order = 0;
  state = active;
  state_before_shutdown = none;
  current_session_id = none;
  tmux_session = some "agent-bob";
  proxy_id = some "p1";
  last_activity = none;
  last_context_pct = none;
  reload_queued = 0;
  reload_task = none;
  failed_at = none;
  failure_reason = none;
  captured_vars = none;
  version = 7;
  spawn_count = 1;
  created_at = 0;
}

abbrev p1 : String
p1 = "p1"

require_proxy-placed_iff_example :
    (require_proxy bob (some ("p0" ∷ "p1" ∷ [])) ≡ placed "p1")
    ↔ (Declares bob "p1" × (p1 ≢ "") × (any (λ q. str_eq q "p1") ("p0" ∷ "p1" ∷ []) ≡ true))
require_proxy-placed_iff_example = require_proxy-placed_iff bob ("p0" ∷ "p1" ∷ []) "p1"

abbrev held : LockRow
held = record { agent_name = "bob"; locked_by = "first"; locked_at = 100; expires_at = 30100 }

abbrev rivals : List LockOp
rivals = try "bob" "second" 30000 60000 200 250 ∷ release "bob" "second" ∷ []

rivals_respect : All (RespectsRow held) rivals
rivals_respect = (omega arith, (inr (λ e. false_ne_true refl ((eq_iff "second" "first").1 e)), tt))

run_lock_ops_keeps_example : find (locks_agent "bob") (run_lock_ops (held ∷ []) rivals) ≡ some held
run_lock_ops_keeps_example = run_lock_ops_keeps (held ∷ []) rivals held "bob" refl rivals_respect

poll_cases_example :
    (is_locked (held ∷ []) "bob" 40000 ≡ false
      → poll (held ∷ []) "bob" "second" 30000 60000 200 40000
        ≡ acquired (delete_expired (held ∷ []) 40000 ++ new_lock "bob" "second" 30000 40000 ∷ []))
    × (is_locked (held ∷ []) "bob" 40000 ≡ true
        → (t' : Table) → poll (held ∷ []) "bob" "second" 30000 60000 200 40000 ≢ acquired t')
poll_cases_example = poll_cases (held ∷ []) "bob" "second" 30000 60000 200 40000

abbrev steady : ℕ → ℕ
steady k = 200 + k * 50

lock_ends_example :
    lock_rounds steady (λ k t. t) "bob" "second" 30000 60000 200 (60000 / 50 + 2) 0 (held ∷ [])
    ≢ none
lock_ends_example =
    lock_ends steady (λ k t. t) "bob" "second" 30000 60000 200 (held ∷ []) (λ k. omega arith)

-- `red` in red, with the two sequences around it, and a window title.
abbrev red : List Piece
red =
    sequence (codes "1;31") b'm'
    ∷ unit b'r'
    ∷ unit b'e'
    ∷ unit b'd'
    ∷ sequence (codes "0") b'm'
    ∷ title (codes "0;t")
    ∷ []

sanitize_message-units_example : sanitize_message (render red) ≡ units red
unfolding units is_control
sanitize_message-units_example =
    sanitize_message-units red
      (
        ((refl, (refl, (refl, (refl, tt)))), refl),
        (refl, (refl, (refl, (((refl, tt), refl), ((refl, (refl, (refl, tt))), tt))))),
      )
      (omega arith)

sanitize_message-IsText_example :
    All IsText (sanitize_message (27 ∷ 0 ∷ codes "a"))
    × (length (sanitize_message (27 ∷ 0 ∷ codes "a")) ≤ 16384)
sanitize_message-IsText_example = sanitize_message-IsText (27 ∷ 0 ∷ codes "a")

sanitize_message-fixed_iff_example :
    (sanitize_message (13 ∷ codes "a") ≡ 13 ∷ codes "a")
    ↔ (IsPlain (13 ∷ codes "a") × (length (13 ∷ codes "a") ≤ 16384))
sanitize_message-fixed_iff_example = sanitize_message-fixed_iff (13 ∷ codes "a")
