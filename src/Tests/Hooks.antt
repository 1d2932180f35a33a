-- ===== src/Tests/Hooks.antt =====
-- Hook resolution (src/orchestrator/hook-resolver.ts) and the engines' commands at concrete inputs.
use agentic_collab.Common.{
  if◌then◌else◌, after_prefix, trim_end, trim_start, all_space, ◌≡◌, refl, true, Option, none, some,
  List, [], ◌∷◌, ◌++◌, Text, codes, trim, text_eq,
}
use agentic_collab.Lifecycle.Hooks.{paste_text}
use agentic_collab.Lifecycle.Templates.{TemplateVars, is_var_char, interpolate_template_vars}
use agentic_collab.Lifecycle.Templates.Rendering.{
  Part, raw, var, persona_prompt, captured, template, IsTemplate, rendered, interpolate-template,
}
use agentic_collab.Engines.{SpawnOptions, ResumeOptions}
use agentic_collab.Engines.Claude
use agentic_collab.Engines.Codex
use agentic_collab.Engines.OpenCode
use agentic_collab.Engines.Words.{between, read_words, plain_word, all_plain, is_plain}
use agentic_collab.Engines.Resuming.{
  claude_resume_words, codex_resume_words, opencode_resume_words, resume_commands_read,
}
use agentic_collab.Lifecycle.Resolving.{
  start, HookContext, missing, legacy, ParsedHook, Resolved, action, paste_or_skip, is_absolute,
  resolve_hook, resolve_string_hook, resolve_file, deserialize_hook_value,
}
use agentic_collab.Lifecycle.Resolving.Files.{file_hook_safe}

abbrev bob_vars : TemplateVars
bob_vars = record {
  agent_name = some (codes "bob");
  agent_cwd = none;
  session_id = none;
  persona_prompt = some (codes "it's $AGENT_NAME");
  persona_prompt_filepath = none;
  captured_vars = some ((codes "TOKEN", codes "7") ∷ []);
}

abbrev bob_parts : List Part
bob_parts =
    raw (codes "run ")
    ∷ var persona_prompt
    ∷ raw (codes " -t ")
    ∷ var (captured (codes "TOKEN"))
    ∷ []

bob_parts-IsTemplate : IsTemplate bob_parts
unfolding template is_var_char
bob_parts-IsTemplate = (
  (refl, (refl, (refl, (refl, tt)))),
  (
    tt,
    refl,
    (
      (refl, (refl, (refl, (refl, tt)))),
      (((refl, (refl, (refl, (refl, (refl, tt))))), refl, refl, refl, refl, refl), tt, tt),
    ),
  ),
)

interpolate-template_example :
    interpolate_template_vars (template bob_parts) (some bob_vars) ≡ rendered bob_vars bob_parts
interpolate-template_example = interpolate-template bob_vars bob_parts bob_parts-IsTemplate

abbrev bob_opts : SpawnOptions
bob_opts = record {
  name = codes "bob";
  cwd = codes "/tmp";
  model = some (codes "opus");
  thinking = none;
  task = some (codes "say 'hi'; rm -rf /");
  append_system_prompt = some (codes "You are $(bob)");
  dangerously_skip_permissions = some true;
  session_id = none;
}

abbrev bob_context : HookContext
bob_context = record {
  spawn_opts = some bob_opts;
  resume_opts = none;
  task = none;
  template_vars = none;
}

abbrev no_engine : Text → Option Text
no_engine name = none

abbrev no_json : Text → Option ParsedHook
no_json value = none

abbrev same_path : Text → Text
same_path path = path

abbrev script : Text → Option Text
script path = if text_eq path (codes "/hooks/start") then some (codes " run \n") else none

abbrev bob_started : Text → Resolved
bob_started engine =
    resolve_hook none no_engine no_json same_path script start missing engine bob_context

script_pasted :
    resolve_hook none no_engine no_json same_path script start
      (legacy (codes "file:" ++ codes " /hooks/start"))
      (codes "claude")
      bob_context
    ≡ action (paste_text (codes "run"))
unfolding resolve_hook resolve_string_hook resolve_file deserialize_hook_value is_absolute
    after_prefix trim trim_end trim_start all_space
script_pasted = refl

file_hook_safe_example :
    (is_absolute (trim (codes " /hooks/start")) ≡ true)
    × (same_path (trim (codes " /hooks/start")) ≡ trim (codes " /hooks/start"))
    × (content : Text) × (script (trim (codes " /hooks/start")) ≡ some content)
    × (paste_text (codes "run") ≡ paste_or_skip (some (trim content)))
file_hook_safe_example =
    file_hook_safe none no_engine no_json same_path script start (codes " /hooks/start")
      (codes "claude") bob_context (paste_text (codes "run")) script_pasted

abbrev bob_resume : ResumeOptions
bob_resume = record {
  name = codes "bob";
  session_id = some (codes "4f-2a");
  cwd = codes "/tmp";
  task = some (codes "go on");
  append_system_prompt = some (codes "You're bob");
}

resume_commands_read_example :
    (read_words ((Claude.adapter none).build_resume_command bob_resume) between
      ≡ some (claude_resume_words none bob_resume))
    × (read_words (Codex.adapter.build_resume_command bob_resume) between
        ≡ some (codex_resume_words bob_resume))
    × (read_words (OpenCode.adapter.build_resume_command bob_resume) between
        ≡ some (opencode_resume_words bob_resume))
resume_commands_read_example =
    resume_commands_read none bob_resume tt (unfold plain_word all_plain is_plain in refl)
      (unfold plain_word all_plain is_plain in refl)
