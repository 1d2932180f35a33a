-- ===== src/Lifecycle/Templates.antt =====
-- `interpolateTemplateVars` of src/orchestrator/hook-resolver.ts: the variables of a shell hook.
pub mod Rendering
use agentic_collab.Common.{
  ℕ, Bool, true, false, ◌&&◌, ◌||◌, Option, none, some, List, [], ◌∷◌, ◌++◌, leb, ◌==◌,
  if◌then◌else◌, Text, codes, text_eq, find,
}
use agentic_collab.Lifecycle.Launch.{Entry, shell_quote}

pub record TemplateVars : Type 0 where
  pub agent_name : Option Text
  pub agent_cwd : Option Text
  pub session_id : Option Text
  pub persona_prompt : Option Text
  pub persona_prompt_filepath : Option Text
  pub captured_vars : Option (List Entry)

-- `[A-Z_]`
unfoldable pub is_var_char : ℕ → Bool
is_var_char c = (leb 65 c && leb c 90) || (c == b'_')

-- `vars[name]`, for the five built-in names.
unfoldable pub builtin_value : TemplateVars → Text → Option Text
builtin_value vars name =
    if text_eq name (codes "AGENT_NAME")
    then vars.agent_name
    else if text_eq name (codes "AGENT_CWD")
    then vars.agent_cwd
    else if text_eq name (codes "SESSION_ID")
    then vars.session_id
    else if text_eq name (codes "PERSONA_PROMPT")
    then vars.persona_prompt
    else if text_eq name (codes "PERSONA_PROMPT_FILEPATH")
    then vars.persona_prompt_filepath
    else none

-- `SHELL_QUOTE_VARS.has(name)`
unfoldable pub is_shell_quoted : Text → Bool
is_shell_quoted name =
    text_eq name (codes "PERSONA_PROMPT") || text_eq name (codes "PERSONA_PROMPT_FILEPATH")

abbrev pub entry_value : Option Entry → Text
entry_value none = []
entry_value (some (k, v)) = v

abbrev pub captured_value : Option (List Entry) → Text → Text
captured_value none name = []
captured_value (some entries) name = entry_value (find (λ (e : Entry). text_eq e.0 name) entries)

abbrev pub replacement_of : TemplateVars → Text → Option Text → Text
replacement_of vars name (some v) = if is_shell_quoted name then shell_quote v else v
replacement_of vars name none = captured_value vars.captured_vars name

-- What the callback of `replace` returns for a name.
unfoldable pub replacement : TemplateVars → Text → Text
replacement vars name = replacement_of vars name (builtin_value vars name)

-- The match of `/\$([A-Z_]+)/g`: outside of one, or after a dollar and the name so far.
pub data Scan : Type 0 where
  literal : Scan
  naming : Text → Scan

-- What the end of a name yields; a dollar with no name stays.
unfoldable pub flush : TemplateVars → Scan → Text
flush vars literal = []
flush vars (naming []) = b'$' ∷ []
flush vars (naming (c ∷ cs)) = replacement vars (c ∷ cs)

abbrev pub after_name : TemplateVars → Scan → ℕ → Text × Scan
after_name vars s c =
    if c == b'$' then (flush vars s, naming []) else (flush vars s ++ c ∷ [], literal)

unfoldable pub scan_char : TemplateVars → Scan → ℕ → Text × Scan
scan_char vars literal c = after_name vars literal c
scan_char vars (naming name) c =
    if is_var_char c then ([], naming (name ++ c ∷ [])) else after_name vars (naming name) c

unfoldable pub scan_text : TemplateVars → Text → Scan → Text
scan_text vars [] s = flush vars s
scan_text vars (c ∷ cs) s = let next = scan_char vars s c in next.0 ++ scan_text vars cs next.1

unfoldable pub interpolate_template_vars : Text → Option TemplateVars → Text
interpolate_template_vars command none = command
interpolate_template_vars command (some vars) = scan_text vars command literal
