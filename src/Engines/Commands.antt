-- ===== src/Engines/Commands.antt =====
-- The commands of src/orchestrator/adapters as a shell reads them: which words, in which order.
use agentic_collab.Common.{◌≡◌, refl, Option, some, List, [], ◌∷◌, ◌++◌, Text, codes, if◌then◌else◌}
use agentic_collab.Engines.{SpawnOptions, pushed, flag, is_true}
use agentic_collab.Engines.Words.{IsPlain, is_plain, all_plain, plain_word, between, read_words}
use agentic_collab.Engines.Claude
use agentic_collab.Engines.Codex
use agentic_collab.Engines.OpenCode
use agentic_collab.Engines.Parts.{
  given, IsPlainOption, Prints, both, plain_part, plain_flag, quoted_flag, named_flag,
  assigned_part, quoted_last, plain_if, read_command,
}

-- The words that Claude Code is started with.
abbrev pub claude_spawn_words : Option Text → SpawnOptions → List Text
claude_spawn_words home opts =
    codes "claude"
    ∷ ((if is_true opts.dangerously_skip_permissions
          then codes "--dangerously-skip-permissions" ∷ []
          else [])
        ++ (given home (flag (codes "--add-dir"))
            ++ (given opts.model (flag (codes "--model"))
                ++ (given opts.thinking (flag (codes "--effort"))
                    ++ (given opts.session_id (flag (codes "--session-id"))
                        ++ (given opts.append_system_prompt (flag (codes "--append-system-prompt"))
                            ++ given opts.task (λ t. t ∷ [])))))))

claude_spawn_words_lem :
    (home : Option Text) (opts : SpawnOptions)
    → IsPlainOption home
    → IsPlainOption opts.model
    → IsPlainOption opts.thinking
    → IsPlainOption opts.session_id
    → read_words (Claude.build_spawn_command home opts) between
      ≡ some (claude_spawn_words home opts)
unfolding Claude.build_spawn_command plain_word all_plain is_plain
claude_spawn_words_lem home opts h m t s = read_command _ _ (
    both (plain_part (codes "claude") refl) (
      both
        (plain_if (is_true opts.dangerously_skip_permissions)
          (codes "--dangerously-skip-permissions") refl)
        (both (plain_flag (codes "--add-dir") refl home h) (
          both (plain_flag (codes "--model") refl opts.model m) (
            both (plain_flag (codes "--effort") refl opts.thinking t) (
              both (plain_flag (codes "--session-id") refl opts.session_id s) (
                both (quoted_flag (codes "--append-system-prompt") refl opts.append_system_prompt)
                  (quoted_last opts.task))))))))

abbrev pub codex_spawn_words : SpawnOptions → List Text
codex_spawn_words opts =
    codes "codex"
    ∷ codes "--dangerously-bypass-approvals-and-sandbox"
    ∷ codes "--no-alt-screen"
    ∷ (given opts.model (flag (codes "--model"))
        ++ (given opts.append_system_prompt (λ p. flag (codes "-p") opts.name)
            ++ given opts.task (λ t. t ∷ [])))

codex_spawn_words_lem :
    (opts : SpawnOptions)
    → IsPlain opts.name
    → IsPlainOption opts.model
    → read_words (Codex.build_spawn_command opts) between ≡ some (codex_spawn_words opts)
unfolding Codex.build_spawn_command plain_word all_plain is_plain
codex_spawn_words_lem opts n m = read_command _ _ (
    both (plain_part (codes "codex") refl) (
      both (plain_part (codes "--dangerously-bypass-approvals-and-sandbox") refl) (
        both (plain_part (codes "--no-alt-screen") refl) (
          both (plain_flag (codes "--model") refl opts.model m) (
            both (named_flag (codes "-p") refl opts.name n opts.append_system_prompt)
              (quoted_last opts.task))))))

abbrev pub opencode_spawn_words : SpawnOptions → List Text
opencode_spawn_words opts =
    given opts.append_system_prompt
      (λ p. (codes "OPENCODE_CONFIG_CONTENT=" ++ OpenCode.config_content opts.name) ∷ [])
    ++ (codes "opencode" ∷ given opts.model (flag (codes "-m")))

opencode_parts :
    (opts : SpawnOptions)
    → IsPlainOption opts.model
    → Prints
        (pushed opts.append_system_prompt (λ p. OpenCode.instructions_env_prefix opts.name ∷ [])
          ++ (codes "opencode" ∷ pushed opts.model (flag (codes "-m"))))
        (opencode_spawn_words opts)
unfolding OpenCode.instructions_env_prefix plain_word all_plain is_plain
opencode_parts opts m =
    both
      (assigned_part (codes "OPENCODE_CONFIG_CONTENT=") (OpenCode.config_content opts.name) refl
        opts.append_system_prompt)
      (both (plain_part (codes "opencode") refl) (plain_flag (codes "-m") refl opts.model m))

opencode_spawn_words_lem :
    (opts : SpawnOptions)
    → IsPlainOption opts.model
    → read_words (OpenCode.build_spawn_command opts) between ≡ some (opencode_spawn_words opts)
unfolding OpenCode.build_spawn_command
opencode_spawn_words_lem opts m = read_command _ _ (opencode_parts opts m)

-- What the launch of each engine asks of its options: the values that stand in the command without
-- quotes are plain words, where they are given.
pub record IsLaunchable (home : Option Text) (opts : SpawnOptions) : Type 0 where
  pub plain_home : IsPlainOption home
  pub plain_name : IsPlain opts.name
  pub plain_model : IsPlainOption opts.model
  pub plain_thinking : IsPlainOption opts.thinking
  pub plain_session : IsPlainOption opts.session_id

-- A shell splits the command that starts an engine into its words: the program, its flags with
-- their values, and, for Claude Code, the prompt and, for it and Codex, the task, each as one
-- word whatever characters it has. The name, the model, the thinking level, the session id and the
-- home directory must be plain words, for the code does not quote them.
pub spawn_commands_read :
    (home : Option Text) (opts : SpawnOptions)
    → IsLaunchable home opts
    → (read_words ((Claude.adapter home).build_spawn_command opts) between
        ≡ some (claude_spawn_words home opts))
      × (read_words (Codex.adapter.build_spawn_command opts) between
          ≡ some (codex_spawn_words opts))
      × (read_words (OpenCode.adapter.build_spawn_command opts) between
          ≡ some (opencode_spawn_words opts))
unfolding Claude.adapter Codex.adapter OpenCode.adapter
spawn_commands_read home opts h = (
  claude_spawn_words_lem home opts h.plain_home h.plain_model h.plain_thinking h.plain_session,
  codex_spawn_words_lem opts h.plain_name h.plain_model,
  opencode_spawn_words_lem opts h.plain_model,
)
