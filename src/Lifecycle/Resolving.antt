-- ===== src/Lifecycle/Resolving.antt =====
-- src/orchestrator/hook-resolver.ts: which action a hook value stands for. The JSON parser, Node's
-- path resolution, the file system and the names of custom engines are parameters.
pub mod Presets
pub mod Files
use agentic_collab.Common.{
  ℕ, Bool, true, false, ◌&&◌, ◌||◌, Option, none, some, List, [], ◌∷◌, ◌++◌, ◌==◌, if◌then◌else◌,
  Text, codes, text_eq, length, trim, after_prefix, first, not, map,
}
use agentic_collab.Lifecycle.Hooks.{
  SendAction, PipelineStep, keystrokes, key, shell, capture, wait, HookResult, paste_text, keys,
  send_actions, pipeline, skip,
}
use agentic_collab.Lifecycle.Launch.{Entry, prepend_exports}
use agentic_collab.Lifecycle.Templates.{TemplateVars, interpolate_template_vars}
use agentic_collab.Engines.{SpawnOptions, ResumeOptions, EngineAdapter}
use agentic_collab.Engines.Registry.{get_adapter}

pub data HookField : Type 0 where
  start resume exit compact interrupt reload submit : HookField

pub record HookContext : Type 0 where
  pub spawn_opts : Option SpawnOptions
  pub resume_opts : Option ResumeOptions
  pub task : Option Text
  pub template_vars : Option TemplateVars

pub record PresetOptions : Type 0 where
  pub model : Option Text
  pub thinking : Option Text
  pub permissions : Option Text

-- A structured hook as the object that JSON gives: any of its keys may be there.
pub record StructuredHook : Type 0 where
  pub preset : Option Text
  pub options : Option PresetOptions
  pub shell_command : Option Text
  pub env : List Entry
  pub send : Option (List SendAction)
  pub keystrokes_list : Option (List SendAction)

pub data ParsedHook : Type 0 where
  structured : StructuredHook → ParsedHook
  steps : List PipelineStep → ParsedHook

pub data HookValue : Type 0 where
  missing : HookValue
  parsed : ParsedHook → HookValue
  legacy : Text → HookValue

pub data HookError : Type 0 where
  spawn_opts_required resume_opts_required no_reload_preset : HookError
  unknown_engine path_not_absolute path_traversal unreadable : Text → HookError

pub data Resolved : Type 0 where
  action : HookResult → Resolved
  refused : HookError → Resolved

-- `if (!cmd) return skip`
abbrev pub paste_or_skip : Option Text → HookResult
paste_or_skip none = skip
paste_or_skip (some []) = skip
paste_or_skip (some (c ∷ cs)) = paste_text (c ∷ cs)

abbrev pub keys_or : Option (List Text) → HookResult → HookResult
keys_or none r = r
keys_or (some ks) r = keys ks

abbrev pub submit_with : EngineAdapter → Text → Option (Text → List SendAction) → HookResult
submit_with adapter task none = paste_text (adapter.build_submit_command task)
submit_with adapter task (some f) = send_actions (f task)

abbrev pub submit_task : EngineAdapter → Option Text → HookResult
submit_task adapter none = skip
submit_task adapter (some []) = skip
submit_task adapter (some (c ∷ cs)) = submit_with adapter (c ∷ cs) adapter.submit_actions

abbrev pub spawn_with : EngineAdapter → Option SpawnOptions → Resolved
spawn_with adapter none = refused spawn_opts_required
spawn_with adapter (some opts) = action (paste_text (adapter.build_spawn_command opts))

abbrev pub resume_with : EngineAdapter → Option ResumeOptions → Resolved
resume_with adapter none = refused resume_opts_required
resume_with adapter (some opts) = action (paste_text (adapter.build_resume_command opts))

unfoldable pub resolve_preset_with_adapter : HookField → EngineAdapter → HookContext → Resolved
resolve_preset_with_adapter start adapter context = spawn_with adapter context.spawn_opts
resolve_preset_with_adapter resume adapter context = resume_with adapter context.resume_opts
resolve_preset_with_adapter exit adapter context =
    action (keys_or adapter.exit_keys (paste_text adapter.build_exit_command))
resolve_preset_with_adapter compact adapter context =
    action (keys_or adapter.compact_keys (paste_or_skip adapter.build_compact_command))
resolve_preset_with_adapter interrupt adapter context = action (keys adapter.interrupt_keys)
resolve_preset_with_adapter submit adapter context = action (submit_task adapter context.task)
resolve_preset_with_adapter reload adapter context = refused no_reload_preset

abbrev pub or_option : Option Text → Option Text → Option Text
or_option none b = b
or_option (some a) b = some a

abbrev pub skips_permissions : Option Text → Bool
skips_permissions none = false
skips_permissions (some p) = text_eq p (codes "skip")

abbrev pub with_options : PresetOptions → SpawnOptions → SpawnOptions
with_options options opts = record opts {
  model = or_option options.model opts.model;
  thinking = or_option options.thinking opts.thinking;
  dangerously_skip_permissions =
      if skips_permissions options.permissions
      then some true
      else opts.dangerously_skip_permissions;
}

abbrev pub map_spawn : (SpawnOptions → SpawnOptions) → Option SpawnOptions → Option SpawnOptions
map_spawn f none = none
map_spawn f (some opts) = some (f opts)

unfoldable pub apply_preset_options : Option PresetOptions → HookContext → HookContext
apply_preset_options none context = context
apply_preset_options (some options) context = record context {
  spawn_opts = map_spawn (with_options options) context.spawn_opts;
}

abbrev pub interpolate_step : Option TemplateVars → PipelineStep → PipelineStep
interpolate_step vars (keystrokes actions) = keystrokes actions
interpolate_step vars (key k old) = key k old
interpolate_step vars (shell command) = shell (interpolate_template_vars command vars)
interpolate_step vars (capture lines regex var) = capture lines regex var
interpolate_step vars (wait ms) = wait ms

unfoldable pub resolve_pipeline : List PipelineStep → HookContext → HookResult
resolve_pipeline [] context = skip
resolve_pipeline (s ∷ ss) context = pipeline (map (interpolate_step context.template_vars) (s ∷ ss))

abbrev pub send_or_skip : Option (List SendAction) → HookResult
send_or_skip none = skip
send_or_skip (some []) = skip
send_or_skip (some (a ∷ actions)) = send_actions (a ∷ actions)

abbrev pub first_actions :
    Option (List SendAction) → Option (List SendAction) → Option (List SendAction)
first_actions none b = b
first_actions (some a) b = some a

unfoldable pub shell_text : List Entry → Text → Text
shell_text [] command = command
shell_text (e ∷ env) command = prepend_exports command (e ∷ env)

abbrev pub shell_or_send : StructuredHook → HookContext → Option Text → HookResult
shell_or_send hook context (some command) =
    paste_text (shell_text hook.env (interpolate_template_vars command context.template_vars))
shell_or_send hook context none = send_or_skip (first_actions hook.keystrokes_list hook.send)

unfoldable pub is_absolute : Text → Bool
is_absolute [] = false
is_absolute (c ∷ cs) = c == b'/'

module _ (home : Option Text) (resolver : Text → Option Text) where
  abbrev pub on_adapter : Text → (EngineAdapter → Resolved) → Option EngineAdapter → Resolved
  on_adapter engine f none = refused (unknown_engine engine)
  on_adapter engine f (some adapter) = f adapter

  unfoldable pub resolve_preset : HookField → Text → HookContext → Resolved
  resolve_preset field engine context =
      on_adapter engine (λ adapter. resolve_preset_with_adapter field adapter context)
        (get_adapter home resolver engine)

  -- The engine that a preset names, or the agent's where it names none.
  abbrev pub named_engine : Text → Text → Text
  named_engine [] engine = engine
  named_engine (c ∷ cs) engine = c ∷ cs

  abbrev pub preset_or_shell :
      HookField → StructuredHook → Text → HookContext → Option Text → Resolved
  preset_or_shell field hook engine context (some preset) =
      if length (trim preset) == 0
      then resolve_preset field engine context
      else resolve_preset field (trim preset) (apply_preset_options hook.options context)
  preset_or_shell field hook engine context none =
      action (shell_or_send hook context hook.shell_command)

  unfoldable pub resolve_structured_hook :
      HookField → StructuredHook → Text → HookContext → Resolved
  resolve_structured_hook field hook engine context =
      preset_or_shell field hook engine context hook.preset

  module _ (json_parse : Text → Option ParsedHook) (resolve_path : Text → Text)
      (read_file : Text → Option Text) where
    abbrev pub file_action : Text → Option Text → Resolved
    file_action path none = refused (unreadable path)
    file_action path (some content) = action (paste_or_skip (some (trim content)))

    unfoldable pub resolve_file : Text → Resolved
    resolve_file path =
        if not (is_absolute path)
        then refused (path_not_absolute path)
        else if not (text_eq (resolve_path path) path)
        then refused (path_traversal path)
        else file_action path (read_file path)

    abbrev pub file_or_paste : Text → Option Text → Resolved
    file_or_paste value (some path) = resolve_file (trim path)
    file_or_paste value none = action (paste_text value)

    abbrev pub preset_or_file : HookField → Text → Text → HookContext → Option Text → Resolved
    preset_or_file field value engine context (some name) =
        resolve_preset field (named_engine (trim name) engine) context
    preset_or_file field value engine context none =
        file_or_paste value (after_prefix (codes "file:") value)

    unfoldable pub resolve_string_hook : HookField → Text → Text → HookContext → Resolved
    resolve_string_hook field value engine context =
        preset_or_file field value engine context (after_prefix (codes "preset:") value)

    unfoldable pub resolve_parsed : HookField → ParsedHook → Text → HookContext → Resolved
    resolve_parsed field (structured hook) engine context =
        resolve_structured_hook field hook engine context
    resolve_parsed field (steps ss) engine context = action (resolve_pipeline ss context)

    -- `deserializeHookValue`, for a text: its object or list, where it is one.
    unfoldable pub deserialize_hook_value : Text → Option ParsedHook
    deserialize_hook_value [] = none
    deserialize_hook_value (c ∷ cs) =
        if (c == b'{') || (c == b'[') then json_parse (c ∷ cs) else none

    abbrev pub parsed_or_string :
        HookField → Text → Text → HookContext → Option ParsedHook → Resolved
    parsed_or_string field value engine context (some hook) =
        resolve_parsed field hook engine context
    parsed_or_string field value engine context none =
        resolve_string_hook field value engine context

    -- `resolveHook`, with the agent's engine.
    unfoldable pub resolve_hook : HookField → HookValue → Text → HookContext → Resolved
    resolve_hook field missing engine context = resolve_preset field engine context
    resolve_hook field (parsed hook) engine context = resolve_parsed field hook engine context
    resolve_hook field (legacy value) engine context =
        parsed_or_string field value engine context (deserialize_hook_value value)
