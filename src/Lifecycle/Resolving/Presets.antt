-- ===== src/Lifecycle/Resolving/Presets.antt =====
-- What an agent without a start hook is started with: src/orchestrator/hook-resolver.ts with the
-- adapters of src/orchestrator/adapters.
use agentic_collab.Common.{◌≡◌, Option, some, List, Text}
use agentic_collab.Lifecycle.Hooks.{paste_text}
use agentic_collab.Engines.Words.{between, read_words}
use agentic_collab.Lifecycle.Resolving.{
  start, HookContext, missing, ParsedHook, Resolved, action, resolve_hook,
}

-- A hook resolved to a pasted text that a shell reads as these words.
abbrev pub Pastes : Resolved → List Text → Type 0
Pastes r words = (t : Text) × (r ≡ action (paste_text t)) × (read_words t between ≡ some words)

module _ (home : Option Text) (resolver : Text → Option Text)
    (json_parse : Text → Option ParsedHook) (resolve_path : Text → Text)
    (read_file : Text → Option Text) where
  abbrev started : Text → HookContext → Resolved
  started engine context =
      resolve_hook home resolver json_parse resolve_path read_file start missing engine context
