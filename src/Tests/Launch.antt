-- ===== src/Tests/Launch.antt =====
-- Launch environments (src/orchestrator/lifecycle.ts) and proxies (src/orchestrator/database.ts) at
-- concrete inputs.
use agentic_collab.Common.{String, ◌≢◌, ◌≡◌, none, some, [], ◌∷◌, codes}
use agentic_collab.Database.Queue.{stamp}
use agentic_collab.Database.Proxies.{Proxy, get_proxy, register_proxy}
use agentic_collab.Database.Proxies.Registration.{IsRegistered, register_proxy-IsRegistered}
use agentic_collab.Lifecycle.Launch.{shell_quote}
use agentic_collab.Lifecycle.Launch.Quoting.{plain, read_word, read-shell_quote}

read-shell_quote_example : read_word plain (shell_quote (codes "it's")) ≡ some (codes "it's")
read-shell_quote_example = read-shell_quote (codes "it's")

abbrev p1 : Proxy
p1 = record {
  proxy_id = "p1";
  token = "t";
  host = "h";
  version = none;
  last_heartbeat = 5;
  registered_at = 2;
}

register_proxy-IsRegistered_example :
    (r : Proxy) × ((register_proxy (p1 ∷ []) "p1" "t2" "h2" none 9000).0 ≡ some r)
    × (get_proxy (register_proxy (p1 ∷ []) "p1" "t2" "h2" none 9000).1 "p1" ≡ some r)
    × ((other : String)
        → "p1" ≢ other
        → get_proxy (register_proxy (p1 ∷ []) "p1" "t2" "h2" none 9000).1 other
          ≡ get_proxy (p1 ∷ []) other)
    × ((p : Proxy)
        → get_proxy (p1 ∷ []) "p1" ≡ some p
        → IsRegistered "p1" "t2" "h2" none 9000 p.registered_at r)
    × (get_proxy (p1 ∷ []) "p1" ≡ none → IsRegistered "p1" "t2" "h2" none 9000 (stamp 9000) r)
register_proxy-IsRegistered_example = register_proxy-IsRegistered (p1 ∷ []) "p1" "t2" "h2" none 9000
