-- ===== src/Engines/OpenCode.antt =====
-- src/orchestrator/adapters/opencode.ts: the commands of OpenCode.
use agentic_collab.Common.{true, false, none, some, [], ◌∷◌, ◌++◌, Text, codes}
use agentic_collab.Engines.{SpawnOptions, ResumeOptions, EngineAdapter, join_parts, pushed, flag}
use agentic_collab.Lifecycle.Launch.{shell_quote}

-- The JSON text of a file name whose characters JSON does not escape.
abbrev pub config_content : Text → Text
config_content name =
    codes "{\"instructions\":[\"~/.config/opencode/collab/" ++ (name ++ codes ".md\"]}")

unfoldable pub instructions_env_prefix : Text → Text
instructions_env_prefix name = codes "OPENCODE_CONFIG_CONTENT=" ++ shell_quote (config_content name)

unfoldable pub build_spawn_command : SpawnOptions → Text
build_spawn_command opts = join_parts (
    pushed opts.append_system_prompt (λ p. instructions_env_prefix opts.name ∷ [])
    ++ (codes "opencode" ∷ pushed opts.model (flag (codes "-m"))))

unfoldable pub build_resume_command : ResumeOptions → Text
build_resume_command opts = join_parts (
    pushed opts.append_system_prompt (λ p. instructions_env_prefix opts.name ∷ [])
    ++ (codes "opencode" ∷ pushed opts.session_id (flag (codes "-s"))))

unfoldable pub adapter : EngineAdapter
adapter = record {
  engine = codes "opencode";
  supports_resume_prompt = false;
  uses_config_profile = true;
  build_spawn_command = build_spawn_command;
  build_resume_command = build_resume_command;
  build_exit_command = codes "/exit";
  build_compact_command = some (codes "/compact");
  build_rename_command = λ name. none;
  interrupt_keys = codes "Escape" ∷ [];
  exit_keys = some (codes "C-c" ∷ []);
  compact_keys = some (codes "C-x" ∷ codes "c" ∷ []);
  build_submit_command = λ task. task;
  submit_actions = none;
}
