-- ===== src/Database/Proxies.antt =====
-- The table `proxies` of src/orchestrator/database.ts; `proxy_id` is the primary key.
pub mod Registration
use agentic_collab.Common.{
  ℕ, String, Bool, true, not, ◌&&◌, Option, none, some, List, [], ◌∷◌, ◌++◌, ltb, length, str_eq,
  find, update, select, count,
}
use agentic_collab.Database.Queue.{stamp}

pub record Proxy : Type 0 where
  pub proxy_id : String
  pub token : String
  pub host : String
  pub version : Option String
  pub last_heartbeat : ℕ
  pub registered_at : ℕ

abbrev pub is_proxy : String → Proxy → Bool
is_proxy id p = str_eq p.proxy_id id

unfoldable pub get_proxy : List Proxy → String → Option Proxy
get_proxy proxies id = find (is_proxy id) proxies

abbrev pub renew : String → String → Option String → ℕ → Proxy → Proxy
renew token host version now p = record p {
  token = token;
  host = host;
  version = version;
  last_heartbeat = stamp now;
}

abbrev pub new_proxy : String → String → String → Option String → ℕ → Proxy
new_proxy id token host version now = record {
  proxy_id = id;
  token = token;
  host = host;
  version = version;
  last_heartbeat = stamp now;
  registered_at = stamp now;
}

-- The update of a row that exists, or the insert.
unfoldable pub write_proxy :
    List Proxy → String → String → String → Option String → ℕ → Option Proxy → List Proxy
write_proxy proxies id token host version now (some existing) =
    update (is_proxy id) (renew token host version now) proxies
write_proxy proxies id token host version now none =
    proxies ++ new_proxy id token host version now ∷ []

-- The result is the row that is read back.
unfoldable pub register_proxy :
    List Proxy → String → String → String → Option String → ℕ → Option Proxy × List Proxy
register_proxy proxies id token host version now =
    let proxies' = write_proxy proxies id token host version now (get_proxy proxies id) in
    (get_proxy proxies' id, proxies')

unfoldable pub update_proxy_heartbeat : List Proxy → String → ℕ → Bool × List Proxy
update_proxy_heartbeat proxies id now = (
  ltb 0 (count (is_proxy id) proxies),
  update (is_proxy id) (λ p. record p { last_heartbeat = stamp now }) proxies,
)

unfoldable pub touch_all_proxy_heartbeats : List Proxy → ℕ → ℕ × List Proxy
touch_all_proxy_heartbeats proxies now =
    (length proxies, update (λ p. true) (λ p. record p { last_heartbeat = stamp now }) proxies)

unfoldable pub remove_proxy : List Proxy → String → Bool × List Proxy
remove_proxy proxies id =
    (ltb 0 (count (is_proxy id) proxies), select (λ p. not (is_proxy id p)) proxies)
