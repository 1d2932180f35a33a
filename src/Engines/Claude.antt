-- ===== src/Engines/Claude.antt =====
-- src/orchestrator/adapters/claude.ts: the commands of Claude Code.
use agentic_collab.Common.{false, Option, none, some, [], ◌∷◌, ◌++◌, Text, codes}
use agentic_collab.Engines.{
  SpawnOptions, ResumeOptions, EngineAdapter, join_parts, pushed, pushed_if, flag, is_true,
}
use agentic_collab.Lifecycle.Launch.{shell_quote}

-- `home` is the environment variable CLAUDE_HOME_DIR.
unfoldable pub build_spawn_command : Option Text → SpawnOptions → Text
build_spawn_command home opts = join_parts (
    codes "claude"
    ∷ (pushed_if (is_true opts.dangerously_skip_permissions)
          (codes "--dangerously-skip-permissions" ∷ [])
        ++ (pushed home (flag (codes "--add-dir"))
            ++ (pushed opts.model (flag (codes "--model"))
                ++ (pushed opts.thinking (flag (codes "--effort"))
                    ++ (pushed opts.session_id (flag (codes "--session-id"))
                        ++ (pushed opts.append_system_prompt
                              (λ p. flag (codes "--append-system-prompt") (shell_quote p))
                            ++ pushed opts.task (λ t. shell_quote t ∷ []))))))))

unfoldable pub build_resume_command : Option Text → ResumeOptions → Text
build_resume_command home opts = join_parts (
    codes "claude"
    ∷ (pushed opts.session_id (flag (codes "--resume"))
        ++ (pushed home (flag (codes "--add-dir"))
            ++ pushed opts.append_system_prompt
                (λ p. flag (codes "--append-system-prompt") (shell_quote p)))))

unfoldable pub adapter : Option Text → EngineAdapter
adapter home = record {
  engine = codes "claude";
  supports_resume_prompt = false;
  uses_config_profile = false;
  build_spawn_command = build_spawn_command home;
  build_resume_command = build_resume_command home;
  build_exit_command = codes "/exit";
  build_compact_command = some (codes "/compact");
  build_rename_command = λ name. some (codes "/rename " ++ name);
  interrupt_keys = codes "Escape" ∷ codes "Escape" ∷ codes "Escape" ∷ [];
  exit_keys = none;
  compact_keys = none;
  build_submit_command = λ task. task;
  submit_actions = none;
}
