-- ===== src/Engines/Resuming.antt =====
-- The commands of src/orchestrator/adapters that resume a session, as a shell reads them.
use agentic_collab.Common.{◌≡◌, refl, Option, none, some, List, [], ◌∷◌, ◌++◌, Text, codes}
use agentic_collab.Engines.{ResumeOptions, flag}
use agentic_collab.Engines.Words.{IsPlain, is_plain, all_plain, plain_word, between, read_words}
use agentic_collab.Engines.Parts.{
  given, IsPlainOption, Prints, both, plain_part, plain_flag, quoted_flag, named_flag,
  assigned_part, quoted_last, read_command,
}
use agentic_collab.Engines.Claude
use agentic_collab.Engines.Codex
use agentic_collab.Engines.OpenCode

abbrev pub claude_resume_words : Option Text → ResumeOptions → List Text
claude_resume_words home opts =
    codes "claude"
    ∷ (given opts.session_id (flag (codes "--resume"))
        ++ (given home (flag (codes "--add-dir"))
            ++ given opts.append_system_prompt (flag (codes "--append-system-prompt"))))

-- The session, or the last one.
abbrev pub codex_session : Option Text → Text
codex_session none = codes "--last"
codex_session (some []) = codes "--last"
codex_session (some (c ∷ cs)) = c ∷ cs

abbrev pub codex_resume_words : ResumeOptions → List Text
codex_resume_words opts =
    codes "codex"
    ∷ codes "--dangerously-bypass-approvals-and-sandbox"
    ∷ codes "--no-alt-screen"
    ∷ codes "resume"
    ∷ codex_session opts.session_id
    ∷ (given opts.append_system_prompt (λ p. flag (codes "-p") opts.name)
        ++ given opts.task (λ t. t ∷ []))

abbrev pub opencode_resume_words : ResumeOptions → List Text
opencode_resume_words opts =
    given opts.append_system_prompt
      (λ p. (codes "OPENCODE_CONFIG_CONTENT=" ++ OpenCode.config_content opts.name) ∷ [])
    ++ (codes "opencode" ∷ given opts.session_id (flag (codes "-s")))

claude_resume :
    (home : Option Text) (opts : ResumeOptions)
    → IsPlainOption home
    → IsPlainOption opts.session_id
    → read_words (Claude.build_resume_command home opts) between
      ≡ some (claude_resume_words home opts)
unfolding Claude.build_resume_command plain_word all_plain is_plain
claude_resume home opts h s = read_command _ _ (
    both (plain_part (codes "claude") refl) (
      both (plain_flag (codes "--resume") refl opts.session_id s) (
        both (plain_flag (codes "--add-dir") refl home h)
          (quoted_flag (codes "--append-system-prompt") refl opts.append_system_prompt))))

session_part :
    (o : Option Text) → IsPlainOption o → Prints (Codex.session_part o ∷ []) (codex_session o ∷ [])
unfolding plain_word all_plain is_plain
session_part none h = plain_part (codes "--last") refl
session_part (some []) h = plain_part (codes "--last") refl
session_part (some (c ∷ cs)) h = plain_part (c ∷ cs) h

codex_resume :
    (opts : ResumeOptions)
    → IsPlain opts.name
    → IsPlainOption opts.session_id
    → read_words (Codex.build_resume_command opts) between ≡ some (codex_resume_words opts)
unfolding Codex.build_resume_command plain_word all_plain is_plain
codex_resume opts n s = read_command _ _ (
    both (plain_part (codes "codex") refl) (
      both (plain_part (codes "--dangerously-bypass-approvals-and-sandbox") refl) (
        both (plain_part (codes "--no-alt-screen") refl) (
          both (plain_part (codes "resume") refl) (
            both (session_part opts.session_id s) (
              both (named_flag (codes "-p") refl opts.name n opts.append_system_prompt)
                (quoted_last opts.task)))))))

opencode_resume :
    (opts : ResumeOptions)
    → IsPlainOption opts.session_id
    → read_words (OpenCode.build_resume_command opts) between ≡ some (opencode_resume_words opts)
unfolding OpenCode.build_resume_command OpenCode.instructions_env_prefix plain_word all_plain
    is_plain
opencode_resume opts s = read_command _ _ (
    both
      (assigned_part (codes "OPENCODE_CONFIG_CONTENT=") (OpenCode.config_content opts.name) refl
        opts.append_system_prompt)
      (both (plain_part (codes "opencode") refl) (plain_flag (codes "-s") refl opts.session_id s)))

-- A shell splits the command that resumes a session into the words that it is meant to have: Codex
-- without a session id resumes the last one, the other two start a new one. The name, the session
-- id and the home directory must be plain words.
pub resume_commands_read :
    (home : Option Text) (opts : ResumeOptions)
    → IsPlainOption home
    → IsPlain opts.name
    → IsPlainOption opts.session_id
    → (read_words ((Claude.adapter home).build_resume_command opts) between
        ≡ some (claude_resume_words home opts))
      × (read_words (Codex.adapter.build_resume_command opts) between
          ≡ some (codex_resume_words opts))
      × (read_words (OpenCode.adapter.build_resume_command opts) between
          ≡ some (opencode_resume_words opts))
unfolding Claude.adapter Codex.adapter OpenCode.adapter
resume_commands_read home opts h n s =
    (claude_resume home opts h s, codex_resume opts n s, opencode_resume opts s)
