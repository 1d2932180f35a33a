-- ===== src/Lifecycle/Templates/Rendering.antt =====
-- A template of src/orchestrator/hook-resolver.ts as a list of parts, and its text.
use agentic_collab.Common.{
  codes, text_eq, Bool, ◌&&◌, Option, none, map_option, ap₂, arith, false, ◌≡◌, refl, ap, sym, ◌∙◌,
  ℕ, true, false, some, List, [], ◌∷◌, ◌++◌, ◌==◌, Text, All, append_assoc, append_nil, inl, inr,
  Bool-cases,
}
use agentic_collab.Lifecycle.Launch.{shell_quote}
use agentic_collab.Lifecycle.Templates.{
  captured_value, replacement_of, builtin_value, is_shell_quoted, TemplateVars, is_var_char,
  replacement, literal, naming, flush, scan_char, scan_text, interpolate_template_vars,
}

-- The variables that the orchestrator sets, and those that a hook captured.
pub data Variable : Type 0 where
  agent_name agent_cwd session_id persona_prompt persona_prompt_filepath : Variable
  captured : Text → Variable

abbrev pub var_name : Variable → Text
var_name agent_name = codes "AGENT_NAME"
var_name agent_cwd = codes "AGENT_CWD"
var_name session_id = codes "SESSION_ID"
var_name persona_prompt = codes "PERSONA_PROMPT"
var_name persona_prompt_filepath = codes "PERSONA_PROMPT_FILEPATH"
var_name (captured name) = name

-- A variable that the orchestrator does not set may be captured under the same name; one that is
-- neither is empty.
abbrev pub as_set : TemplateVars → Text → Option Text → Text
as_set vars name none = captured_value vars.captured_vars name
as_set vars name (some v) = v

-- The prompt and its file's path are quoted for the shell, and nothing else is.
abbrev pub value : TemplateVars → Variable → Text
value vars agent_name = as_set vars (codes "AGENT_NAME") vars.agent_name
value vars agent_cwd = as_set vars (codes "AGENT_CWD") vars.agent_cwd
value vars session_id = as_set vars (codes "SESSION_ID") vars.session_id
value vars persona_prompt =
    as_set vars (codes "PERSONA_PROMPT") (map_option shell_quote vars.persona_prompt)
value vars persona_prompt_filepath =
    as_set vars (codes "PERSONA_PROMPT_FILEPATH")
      (map_option shell_quote vars.persona_prompt_filepath)
value vars (captured name) = captured_value vars.captured_vars name

-- A piece of text, or a variable.
pub data Part : Type 0 where
  raw : Text → Part
  var : Variable → Part

unfoldable pub template : List Part → Text
template [] = []
template (raw t ∷ ps) = t ++ template ps
template (var v ∷ ps) = b'$' ∷ (var_name v ++ template ps)

unfoldable pub rendered : TemplateVars → List Part → Text
rendered vars [] = []
rendered vars (raw t ∷ ps) = t ++ rendered vars ps
rendered vars (var v ∷ ps) = value vars v ++ rendered vars ps

-- The text that follows a variable does not go on with a character of names.
abbrev pub Ends : Text → Type 0
Ends [] = Unit
Ends (c ∷ cs) = is_var_char c ≡ false

abbrev pub IsVarName : Text → Type 0
IsVarName [] = ⊥
IsVarName (c ∷ cs) = All (λ d. is_var_char d ≡ true) (c ∷ cs)

-- A captured variable has a name of its own.
abbrev IsVariable : Variable → Type 0
IsVariable (captured name) =
    IsVarName name
    × (text_eq name (codes "AGENT_NAME") ≡ false)
    × (text_eq name (codes "AGENT_CWD") ≡ false)
    × (text_eq name (codes "SESSION_ID") ≡ false)
    × (text_eq name (codes "PERSONA_PROMPT") ≡ false)
    × (text_eq name (codes "PERSONA_PROMPT_FILEPATH") ≡ false)
IsVariable agent_name = Unit
IsVariable agent_cwd = Unit
IsVariable session_id = Unit
IsVariable persona_prompt = Unit
IsVariable persona_prompt_filepath = Unit

-- Pieces of text have no dollar, and a variable's name is all of the letters that follow its dollar.
abbrev pub IsTemplate : List Part → Type 0
IsTemplate [] = Unit
IsTemplate (raw t ∷ ps) = All (λ c. (c == b'$') ≡ false) t × IsTemplate ps
IsTemplate (var v ∷ ps) = IsVariable v × Ends (template ps) × IsTemplate ps

all_var_chars : Text → Bool
all_var_chars [] = true
all_var_chars (c ∷ cs) = is_var_char c && all_var_chars cs

All-var_chars : (t : Text) → all_var_chars t ≡ true → All (λ d. is_var_char d ≡ true) t
unfolding all_var_chars
All-var_chars [] h = tt
All-var_chars (c ∷ cs) h = (ground arith, All-var_chars cs (ground arith))

var_name-IsVarName : (v : Variable) → IsVariable v → IsVarName (var_name v)
unfolding all_var_chars is_var_char
var_name-IsVarName agent_name h = All-var_chars (codes "AGENT_NAME") refl
var_name-IsVarName agent_cwd h = All-var_chars (codes "AGENT_CWD") refl
var_name-IsVarName session_id h = All-var_chars (codes "SESSION_ID") refl
var_name-IsVarName persona_prompt h = All-var_chars (codes "PERSONA_PROMPT") refl
var_name-IsVarName persona_prompt_filepath h = All-var_chars (codes "PERSONA_PROMPT_FILEPATH") refl
var_name-IsVarName (captured name) h = h.0

module _ (vars : TemplateVars) where
  unquoted :
      (name : Text) (o : Option Text)
      → is_shell_quoted name ≡ false
      → replacement_of vars name o ≡ as_set vars name o
  unquoted name none h = refl
  unquoted name (some v) h = rw h refl

  quoted :
      (name : Text) (o : Option Text)
      → is_shell_quoted name ≡ true
      → replacement_of vars name o ≡ as_set vars name (map_option shell_quote o)
  quoted name none h = refl
  quoted name (some v) h = rw h refl

  replacement-value : (v : Variable) → IsVariable v → replacement vars (var_name v) ≡ value vars v
  unfolding replacement builtin_value is_shell_quoted
  replacement-value agent_name h = unquoted (codes "AGENT_NAME") vars.agent_name refl
  replacement-value agent_cwd h = unquoted (codes "AGENT_CWD") vars.agent_cwd refl
  replacement-value session_id h = unquoted (codes "SESSION_ID") vars.session_id refl
  replacement-value persona_prompt h = quoted (codes "PERSONA_PROMPT") vars.persona_prompt refl
  replacement-value persona_prompt_filepath h =
      quoted (codes "PERSONA_PROMPT_FILEPATH") vars.persona_prompt_filepath refl
  replacement-value (captured name) (n, a, b, c, d, e) = rw (a, b, c, d, e) refl

  scan_raw :
      (t rest : Text)
      → All (λ c. (c == b'$') ≡ false) t
      → scan_text vars (t ++ rest) literal ≡ t ++ scan_text vars rest literal
  unfolding scan_text scan_char flush
  scan_raw [] rest h = refl
  scan_raw (c ∷ cs) rest (p, h) = rw p (ap (λ u. c ∷ u) (scan_raw cs rest h))

  scan_name :
      (name t rest : Text)
      → All (λ c. is_var_char c ≡ true) t
      → scan_text vars (t ++ rest) (naming name) ≡ scan_text vars rest (naming (name ++ t))
  unfolding scan_text scan_char
  scan_name name [] rest h = ap (λ n. scan_text vars rest (naming n)) (sym (append_nil name))
  scan_name name (c ∷ cs) rest (p, h) = rw p (
      scan_name (name ++ c ∷ []) cs rest h
      ∙ ap (λ n. scan_text vars rest (naming n)) (append_assoc name (c ∷ []) cs))

  -- The end of a name is seen at the first character that is none of names.
  scan_end :
      (c : ℕ) (cs rest : Text)
      → Ends rest
      → scan_text vars rest (naming (c ∷ cs))
        ≡ replacement vars (c ∷ cs) ++ scan_text vars rest literal
  unfolding scan_text scan_char flush
  scan_end c cs [] h = sym (append_nil (replacement vars (c ∷ cs)))
  scan_end c cs (d ∷ ds) h = rw h (elim (Bool-cases (d == b'$')) [
    | inl e ↦ rw e refl
    | inr e ↦ rw e (append_assoc (replacement vars (c ∷ cs)) (d ∷ []) (scan_text vars ds literal))
  ])

  scan_var :
      (n rest : Text)
      → IsVarName n
      → Ends rest
      → scan_text vars (b'$' ∷ (n ++ rest)) literal
        ≡ replacement vars n ++ scan_text vars rest literal
  unfolding scan_text scan_char flush
  scan_var [] rest h e = absurd h
  scan_var (c ∷ cs) rest h e = scan_name [] (c ∷ cs) rest h ∙ scan_end c cs rest e

  scan_template :
      (ps : List Part) → IsTemplate ps → scan_text vars (template ps) literal ≡ rendered vars ps
  unfolding template rendered scan_text flush
  scan_template [] h = refl
  scan_template (raw t ∷ ps) (p, h) =
      scan_raw t (template ps) p ∙ ap (λ u. t ++ u) (scan_template ps h)
  scan_template (var v ∷ ps) (p, e, h) =
      scan_var (var_name v) (template ps) (var_name-IsVarName v p) e
      ∙ ap₂ (λ (t u : Text). t ++ u) (replacement-value v p) (scan_template ps h)

  -- Each variable of a template is replaced, once, by its value, that of a prompt or its file's path
  -- quoted for the shell and every other as it is, and the text between them stays: what a value
  -- contains is not read for variables again. A name is all the capital letters and underscores that
  -- follow its dollar, so a text that goes on in another character follows it directly.
  pub interpolate-template :
      (ps : List Part)
      → IsTemplate ps
      → interpolate_template_vars (template ps) (some vars) ≡ rendered vars ps
  unfolding interpolate_template_vars
  interpolate-template ps h = scan_template ps h
