-- ===== src/Shared/Agent/Entity.antt =====
-- Where an agent is placed, and which states admit which operation (src/shared/agent-entity.ts).
use agentic_collab.Common.{
  String, ◌≡◌, ◌≢◌, ◌⊎◌, ◌↔◌, Bool, true, false, Option, none, some, List, str_eq, eq_iff, arith,
  any, ◌||◌,
}
use agentic_collab.Shared.Agent.{
  AgentState, void, AgentRecord, placed, truthy, require_assigned, require_pinned, require_proxy,
  state_eq, is_running, is_transitioning, can_suspend, can_resume,
}

pub eq_of_state_eq : (a b : AgentState) → state_eq a b ≡ true → a ≡ b
eq_of_state_eq a b h = ground arith

pub state_eq_refl : (a : AgentState) → state_eq a a ≡ true
state_eq_refl a = ground arith

-- The proxy that an agent is meant for: a pin that is not empty, else where it was placed.
abbrev pub Declares : AgentRecord → String → Type 0
Declares agent p =
    (agent.config.proxy_pin ≡ some p)
    ⊎ ((truthy agent.config.proxy_pin ≡ false) × (agent.proxy_id ≡ some p))

abbrev has : List String → String → Bool
has ids p = any (λ q. str_eq q p) ids

module _ (agent : AgentRecord) (ids : List String) (p : String) where
  assigned_iff :
      (o : Option String)
      → (require_assigned agent (some ids) o ≡ placed p)
        ↔ ((o ≡ some p) × (p ≢ "") × (has ids p ≡ true))
  unfolding require_assigned
  assigned_iff none = ground arith
  assigned_iff (some id) = ground (arith, eq_iff id "", eq_iff p "")

  pinned_iff :
      (o : Option String)
      → (require_pinned agent (some ids) o ≡ placed p) ↔ (
          ((o ≡ some p) ⊎ ((truthy o ≡ false) × (agent.proxy_id ≡ some p)))
          × (p ≢ "")
          × (has ids p ≡ true))
  unfolding require_pinned
  pinned_iff none = ground (arith, assigned_iff agent.proxy_id)
  pinned_iff (some id) = ground (arith, assigned_iff agent.proxy_id, eq_iff id "", eq_iff p "")

-- With the registered proxies at hand, an agent is placed on a proxy exactly when it declares that
-- proxy, its name is not empty and it is registered.
pub require_proxy-placed_iff :
    (agent : AgentRecord) (ids : List String) (p : String)
    → (require_proxy agent (some ids) ≡ placed p)
      ↔ (Declares agent p × (p ≢ "") × (any (λ q. str_eq q p) ids ≡ true))
unfolding require_proxy
require_proxy-placed_iff agent ids p = pinned_iff agent ids p agent.config.proxy_pin

-- In every state but `void` exactly one of these holds: an operation is under way, the agent can
-- be suspended, or it can be resumed; in `void` none does.
pub phase_of_state :
    (agent : AgentRecord)
    → ((agent.state ≡ void)
        ↔ ((is_transitioning agent || can_suspend agent || can_resume agent) ≡ false))
      × (is_transitioning agent ≡ true → (can_suspend agent || can_resume agent) ≡ false)
      × (can_suspend agent ≡ true → can_resume agent ≡ false)
      × (can_suspend agent ≡ true → is_running agent ≡ true)
      × (can_resume agent ≡ true → is_running agent ≡ false)
unfolding is_transitioning can_suspend can_resume is_running
phase_of_state agent = ground arith
