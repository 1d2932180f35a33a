-- ===== src/Lifecycle/Config.antt =====
-- The settings of an agent over the defaults of its engine
-- (src/orchestrator/engine-config-resolver.ts), and the peers that its prompt names.
use agentic_collab.Common.{String, not, ◌&&◌, Option, none, some, List, str_eq, select, map}
use agentic_collab.Shared.Agent.{AgentConfig, AgentRecord, void, failed, state_eq}

-- The columns of an engine's configuration that are merged.
pub record EngineConfig : Type 0 where
  pub model : Option String
  pub thinking : Option String
  pub permissions : Option String
  pub hook_start : Option String
  pub hook_resume : Option String
  pub hook_compact : Option String
  pub hook_exit : Option String
  pub hook_interrupt : Option String
  pub hook_reload : Option String
  pub hook_submit : Option String
  pub indicators : Option String
  pub custom_buttons : Option String
  pub launch_env : Option (List (String × String))

-- `a ?? b`
abbrev pub or_default {ℓ} : {A : Type ℓ} → Option A → Option A → Option A
or_default none b = b
or_default (some a) b = some a

unfoldable pub merge_config : AgentConfig → EngineConfig → AgentConfig
merge_config c d = record c {
  model = or_default c.model d.model;
  thinking = or_default c.thinking d.thinking;
  permissions = or_default c.permissions d.permissions;
  hook_start = or_default c.hook_start d.hook_start;
  hook_resume = or_default c.hook_resume d.hook_resume;
  hook_compact = or_default c.hook_compact d.hook_compact;
  hook_exit = or_default c.hook_exit d.hook_exit;
  hook_interrupt = or_default c.hook_interrupt d.hook_interrupt;
  hook_reload = or_default c.hook_reload d.hook_reload;
  hook_submit = or_default c.hook_submit d.hook_submit;
  indicators = or_default c.indicators d.indicators;
  custom_buttons = or_default c.custom_buttons d.custom_buttons;
  launch_env = or_default c.launch_env d.launch_env;
}

unfoldable pub resolve_effective_config : AgentRecord → Option EngineConfig → AgentRecord
resolve_effective_config agent none = agent
resolve_effective_config agent (some config) = record agent {
  config = merge_config agent.config config;
}

-- `computePeers`
unfoldable pub compute_peers : List AgentRecord → String → List String
compute_peers agents name =
    map (λ a. a.name)
      (select
        (λ a.
          not (str_eq a.name name) && not (state_eq a.state void) && not (state_eq a.state failed))
        agents)
