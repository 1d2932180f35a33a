-- ===== src/Lifecycle/Resolving/Files.antt =====
-- Which files a hook of src/orchestrator/hook-resolver.ts reads.
use agentic_collab.Common.{
  ◌≡◌, ◌≢◌, sym, true, Option, some, ◌++◌, Text, codes, trim, after_prefix, text_eq, eq_of_text_eq,
  Bool-cases, Option-cases, inl, inr,
}
use agentic_collab.Lifecycle.Hooks.{HookResult}
use agentic_collab.Lifecycle.Resolving.{
  HookField, HookContext, legacy, ParsedHook, HookError, action, refused, paste_or_skip,
  is_absolute, resolve_file, resolve_string_hook, deserialize_hook_value, resolve_hook,
}

refused_ne_action : {r : HookResult} {e : HookError} → refused e ≢ action r
refused_ne_action h = cc

action_inj : {r s : HookResult} → action r ≡ action s → r ≡ s
action_inj h = cc

module _ (home : Option Text) (resolver : Text → Option Text)
    (json_parse : Text → Option ParsedHook) (resolve_path : Text → Text)
    (read_file : Text → Option Text) where
  resolve_file_safe :
      (p : Text) (r : HookResult)
      → resolve_file home resolver json_parse resolve_path read_file p ≡ action r
      → (is_absolute p ≡ true)
        × (resolve_path p ≡ p)
        × (content : Text) × (read_file p ≡ some content)
        × (r ≡ paste_or_skip (some (trim content)))
  unfolding resolve_file
  resolve_file_safe p r h = elim (Bool-cases (is_absolute p)) [
    | inr e ↦ absurd (refused_ne_action (rw e at h))
    | inl e ↦ elim (Bool-cases (text_eq (resolve_path p) p)) [
      | inr t ↦ absurd (refused_ne_action (rw (e, t) at h))
      | inl t ↦ elim (Option-cases (read_file p)) [
        | inl m ↦ absurd (refused_ne_action (rw (e, t, m) at h))
        | inr (content, m) ↦ (
          e,
          eq_of_text_eq (resolve_path p) p t,
          content,
          m,
          sym (action_inj (rw (e, t, m) at h)),
        )
      ]
    ]
  ]

  -- A file hook acts only on a path that is absolute and that no `.` or `..` changes, and what it
  -- does then is to paste the trimmed contents of that file, or nothing where they are empty.
  pub file_hook_safe :
      (field : HookField) (path engine : Text) (context : HookContext) (r : HookResult)
      → resolve_hook home resolver json_parse resolve_path read_file field
          (legacy (codes "file:" ++ path))
          engine
          context
        ≡ action r
      → (is_absolute (trim path) ≡ true)
        × (resolve_path (trim path) ≡ trim path)
        × (content : Text) × (read_file (trim path) ≡ some content)
        × (r ≡ paste_or_skip (some (trim content)))
  unfolding resolve_hook resolve_string_hook deserialize_hook_value after_prefix resolve_file
  file_hook_safe field path engine context r h = resolve_file_safe (trim path) r h
