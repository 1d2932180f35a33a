-- ===== src/Lifecycle/Launch.antt =====
-- The environment of a launch command: `withLaunchEnv` and its companions in
-- src/orchestrator/lifecycle.ts, and `shellQuote` of src/shared/utils.ts.
pub mod Quoting
use agentic_collab.Common.{
  ℕ, Bool, not, Option, none, some, List, [], ◌∷◌, ◌++◌, ◌==◌, if◌then◌else◌, any, select, Text,
  codes, text_eq, String,
}
use agentic_collab.Lifecycle.Hooks.{
  PipelineStep, keystrokes, key, shell, capture, wait, HookResult, paste_text, keys, send_actions,
  pipeline, skip,
}

-- `'` and `\`
abbrev pub quote : ℕ
quote = 39

abbrev pub backslash : ℕ
backslash = 92

-- `s.replace(/'/g, "'\\''")`
abbrev pub escape_quotes : Text → Text
escape_quotes [] = []
escape_quotes (c ∷ cs) =
    let rest = escape_quotes cs in
    if c == quote then quote ∷ backslash ∷ quote ∷ quote ∷ rest else c ∷ rest

unfoldable pub shell_quote : Text → Text
shell_quote s = quote ∷ escape_quotes s ++ quote ∷ []

abbrev pub Entry : Type 0
Entry = Text × Text

unfoldable pub assignments : List Entry → Text
assignments [] = []
assignments ((k, v) ∷ []) = k ++ codes "=" ++ shell_quote v
assignments ((k, v) ∷ e ∷ entries) =
    (k ++ codes "=" ++ shell_quote v) ++ codes " " ++ assignments (e ∷ entries)

unfoldable pub prepend_exports : Text → List Entry → Text
prepend_exports cmd entries = codes "export " ++ assignments entries ++ codes " && " ++ cmd

-- An account's home that is missing or empty is not exported.
abbrev pub home_entry : Option Text → List Entry
home_entry none = []
home_entry (some []) = []
home_entry (some (c ∷ cs)) = (codes "HOME", c ∷ cs) ∷ []

unfoldable pub base_entries : Text → Text → Option Text → List Entry
base_entries name persona_file home =
    (codes "COLLAB_AGENT", name) ∷ (codes "COLLAB_PERSONA_FILE", persona_file) ∷ home_entry home

abbrev pub has_key : List Entry → Text → Bool
has_key entries k = any (λ (k', v). text_eq k' k) entries

unfoldable pub launch_entries : List Entry → List Entry → List Entry
launch_entries base env = select (λ (k, v). not (has_key base k)) env

unfoldable pub with_launch_env : Text → List Entry → Text → Text → Option Text → Text
with_launch_env name env cmd persona_file home =
    let base = base_entries name persona_file home in
    prepend_exports cmd (base ++ launch_entries base env)

-- `wrapFirstShellStep`, with the function that wraps a command.
unfoldable pub wrap_first_shell_step : (Text → Text) → List PipelineStep → List PipelineStep
wrap_first_shell_step wrap [] = []
wrap_first_shell_step wrap (shell c ∷ steps) = shell (wrap c) ∷ steps
wrap_first_shell_step wrap (keystrokes actions ∷ steps) =
    keystrokes actions ∷ wrap_first_shell_step wrap steps
wrap_first_shell_step wrap (key k l ∷ steps) = key k l ∷ wrap_first_shell_step wrap steps
wrap_first_shell_step wrap (capture lines regex var ∷ steps) =
    capture lines regex var ∷ wrap_first_shell_step wrap steps
wrap_first_shell_step wrap (wait ms ∷ steps) = wait ms ∷ wrap_first_shell_step wrap steps

unfoldable pub wrap_launch_result : (Text → Text) → HookResult → HookResult
wrap_launch_result wrap (paste_text t) = paste_text (wrap t)
wrap_launch_result wrap (pipeline steps) = pipeline (wrap_first_shell_step wrap steps)
wrap_launch_result wrap (keys ks) = keys ks
wrap_launch_result wrap (send_actions actions) = send_actions actions
wrap_launch_result wrap skip = skip
