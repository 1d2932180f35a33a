-- ===== src/Engines/Registry.antt =====
-- src/orchestrator/adapters/index.ts: the adapter under a name.
use agentic_collab.Common.{Option, none, some, Text, codes, text_eq, if◌then◌else◌}
use agentic_collab.Engines.{EngineAdapter}
use agentic_collab.Engines.Claude
use agentic_collab.Engines.Codex
use agentic_collab.Engines.OpenCode

-- `getAdapter`: the engine of that name, or the one under a custom name; `resolver` is the lookup
-- in the engine configs.
abbrev pub adapter_of : Option Text → Text → Option EngineAdapter
adapter_of home engine =
    if text_eq engine (codes "claude")
    then some (Claude.adapter home)
    else if text_eq engine (codes "codex")
    then some Codex.adapter
    else if text_eq engine (codes "opencode")
    then some OpenCode.adapter
    else none

abbrev pub first_of {ℓ} : {A : Type ℓ} → Option A → Option A → Option A
first_of none b = b
first_of (some a) b = some a

abbrev pub bind_option {ℓ κ} : {A : Type ℓ} {B : Type κ} → Option A → (A → Option B) → Option B
bind_option none f = none
bind_option (some a) f = f a

unfoldable pub get_adapter : Option Text → (Text → Option Text) → Text → Option EngineAdapter
get_adapter home resolver engine =
    first_of (adapter_of home engine) (bind_option (resolver engine) (adapter_of home))
