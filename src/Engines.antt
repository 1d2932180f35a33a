-- ===== src/Engines.antt =====
-- The engine adapters (src/orchestrator/adapters): the commands and keys for each AI harness. How
-- they read a terminal (idle state, context, session id) is left out.
pub mod Claude
pub mod Codex
pub mod OpenCode
pub mod Registry
pub mod Words
pub mod Parts
pub mod Commands
pub mod Resuming
use agentic_collab.Common.{
  Bool, true, false, Option, none, some, List, [], ◌∷◌, ◌++◌, ◌==◌, if◌then◌else◌, length, Text,
  codes, text_eq,
}
use agentic_collab.Lifecycle.Hooks.{SendAction, keystroke, paste}
use agentic_collab.Lifecycle.Launch.{shell_quote}

pub record SpawnOptions : Type 0 where
  pub name : Text
  pub cwd : Text
  pub model : Option Text
  pub thinking : Option Text
  pub task : Option Text
  pub append_system_prompt : Option Text
  pub dangerously_skip_permissions : Option Bool
  pub session_id : Option Text

pub record ResumeOptions : Type 0 where
  pub name : Text
  pub session_id : Option Text
  pub cwd : Text
  pub task : Option Text
  pub append_system_prompt : Option Text

-- `EngineAdapter`, less the functions that read a terminal. The optional methods are options.
pub record EngineAdapter : Type 0 where
  pub engine : Text
  pub supports_resume_prompt : Bool
  pub uses_config_profile : Bool
  pub build_spawn_command : SpawnOptions → Text
  pub build_resume_command : ResumeOptions → Text
  pub build_exit_command : Text
  pub build_compact_command : Option Text
  pub build_rename_command : Text → Option Text
  pub interrupt_keys : List Text
  pub exit_keys : Option (List Text)
  pub compact_keys : Option (List Text)
  pub build_submit_command : Text → Text
  pub submit_actions : Option (Text → List SendAction)

-- `parts.join(' ')`
unfoldable pub join_parts : List Text → Text
join_parts [] = []
join_parts (p ∷ []) = p
join_parts (p ∷ q ∷ ps) = p ++ (b' ' ∷ join_parts (q ∷ ps))

-- `if (value) parts.push(…)`: an empty text is no value.
abbrev pub pushed : Option Text → (Text → List Text) → List Text
pushed none f = []
pushed (some []) f = []
pushed (some (c ∷ cs)) f = f (c ∷ cs)

abbrev pub pushed_if : Bool → List Text → List Text
pushed_if b ps = if b then ps else []

abbrev pub flag : Text → Text → List Text
flag name value = name ∷ value ∷ []

-- `value === true`
abbrev pub is_true : Option Bool → Bool
is_true none = false
is_true (some b) = b
