-- ===== src/Engines/Codex.antt =====
-- src/orchestrator/adapters/codex.ts: the commands of Codex.
use agentic_collab.Common.{true, Option, none, some, List, [], ◌∷◌, ◌++◌, Text, codes}
use agentic_collab.Engines.{SpawnOptions, ResumeOptions, EngineAdapter, join_parts, pushed, flag}
use agentic_collab.Lifecycle.Launch.{shell_quote}
use agentic_collab.Lifecycle.Hooks.{SendAction, keystroke, paste}

abbrev pub base_parts : List Text
base_parts =
    codes "codex"
    ∷ codes "--dangerously-bypass-approvals-and-sandbox"
    ∷ codes "--no-alt-screen"
    ∷ []

unfoldable pub build_spawn_command : SpawnOptions → Text
build_spawn_command opts = join_parts (
    base_parts
    ++ (pushed opts.model (flag (codes "--model"))
        ++ (pushed opts.append_system_prompt (λ p. flag (codes "-p") opts.name)
            ++ pushed opts.task (λ t. shell_quote t ∷ []))))

abbrev pub session_part : Option Text → Text
session_part none = codes "--last"
session_part (some []) = codes "--last"
session_part (some (c ∷ cs)) = c ∷ cs

unfoldable pub build_resume_command : ResumeOptions → Text
build_resume_command opts = join_parts (
    base_parts
    ++ (codes "resume"
        ∷ session_part opts.session_id
        ∷ (pushed opts.append_system_prompt (λ p. flag (codes "-p") opts.name)
            ++ pushed opts.task (λ t. shell_quote t ∷ []))))

unfoldable pub submit_actions : Text → List SendAction
submit_actions task =
    paste task none ∷ keystroke (codes "Enter") (some 1000) ∷ keystroke (codes "Enter") none ∷ []

unfoldable pub adapter : EngineAdapter
adapter = record {
  engine = codes "codex";
  supports_resume_prompt = true;
  uses_config_profile = true;
  build_spawn_command = build_spawn_command;
  build_resume_command = build_resume_command;
  build_exit_command = codes "/exit";
  build_compact_command = none;
  build_rename_command = λ name. none;
  interrupt_keys = codes "Escape" ∷ codes "Escape" ∷ [];
  exit_keys = none;
  compact_keys = none;
  build_submit_command = λ task. task;
  submit_actions = some submit_actions;
}
