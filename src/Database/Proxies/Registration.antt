-- ===== src/Database/Proxies/Registration.antt =====
-- What a registration of a proxy leaves (src/orchestrator/database.ts).
use agentic_collab.Common.{
  Bool, find, str_eq, Bool-cases, arith, false, map_option, if◌then◌else◌, ℕ, String, ◌≡◌, ◌≢◌,
  refl, sym, ap, ◌∙◌, Option, none, some, List, inl, inr, Option-cases, find-update, find_holds,
  find-append, eq_refl, eq_iff, none_ne_some, some_inj,
}
use agentic_collab.Database.Queue.{stamp}
use agentic_collab.Database.Proxies.{
  Proxy, is_proxy, get_proxy, renew, new_proxy, write_proxy, register_proxy,
}

-- The row of a registration at `now`, for a proxy that was first registered at `since`.
pub record IsRegistered (id token host : String) (version : Option String) (now since : ℕ)
    (r : Proxy) : Type 0 where
  pub key : r.proxy_id ≡ id
  pub credentials : (r.token ≡ token) × (r.host ≡ host) × (r.version ≡ version)
  pub seen : r.last_heartbeat ≡ stamp now
  pub first_seen : r.registered_at ≡ since

module _ (proxies : List Proxy) (id token host : String) (version : Option String) (now : ℕ) where
  registered_again :
      (p : Proxy)
      → get_proxy proxies id ≡ some p
      → (register_proxy proxies id token host version now).0 ≡ some (renew token host version now p)
  unfolding register_proxy write_proxy get_proxy
  registered_again p h =
      rw (h, write_proxy)
        (rw
          (find-update (is_proxy id) (is_proxy id) (renew token host version now) (λ x. refl)
            proxies)
          (rw h (rw (find_holds (is_proxy id) proxies p h) refl)))

  registered_new :
      get_proxy proxies id ≡ none
      → (register_proxy proxies id token host version now).0
        ≡ some (new_proxy id token host version now)
  unfolding register_proxy write_proxy get_proxy
  registered_new h =
      rw (h, write_proxy)
        (rw (find-append (is_proxy id) proxies (new_proxy id token host version now))
          (rw h (rw (eq_refl id) refl)))

  stored_again :
      (p : Proxy)
      → get_proxy proxies id ≡ some p
      → get_proxy (register_proxy proxies id token host version now).1 id
        ≡ some (renew token host version now p)
  unfolding register_proxy
  stored_again p h = registered_again p h

  stored_new :
      get_proxy proxies id ≡ none
      → get_proxy (register_proxy proxies id token host version now).1 id
        ≡ some (new_proxy id token host version now)
  unfolding register_proxy
  stored_new h = registered_new h

  id_ne : (other : String) → id ≢ other → str_eq id other ≡ false
  id_ne other d = elim (Bool-cases (str_eq id other)) [
    | inl t ↦ absurd (d ((eq_iff id other).0 t))
    | inr t ↦ t
  ]

  other_id : (b : Proxy) (other : String) → id ≢ other → b.proxy_id ≡ other → is_proxy id b ≡ false
  other_id b other d e = ground (arith, eq_iff b.proxy_id id)

  others_kept :
      (other : String)
      → id ≢ other
      → get_proxy (register_proxy proxies id token host version now).1 other
        ≡ get_proxy proxies other
  unfolding register_proxy write_proxy get_proxy
  others_kept other d = elim (Option-cases (get_proxy proxies id)) [
    | inl h ↦
        rw (h, write_proxy)
          (find-append (is_proxy other) proxies (new_proxy id token host version now)
            ∙ as_found (find (is_proxy other) proxies) (str_eq id other) (id_ne other d))
    | inr (p, h) ↦
        rw (h, write_proxy)
          (find-update (is_proxy other) (is_proxy id) (renew token host version now) (λ x. refl)
              proxies
            ∙ unchanged (find (is_proxy other) proxies) refl)
  ]
    where
      as_found :
          (o : Option Proxy) (t : Bool)
          → t ≡ false
          → elim o [
            | none ↦ if t then some (new_proxy id token host version now) else none
            | some b ↦ some b
          ]
            ≡ o
      as_found none t h = rw h refl
      as_found (some b) t h = refl

      unchanged :
          (o : Option Proxy)
          → find (is_proxy other) proxies ≡ o
          → map_option (λ p. if is_proxy id p then renew token host version now p else p) o ≡ o
      unchanged none h = refl
      unchanged (some b) h =
          rw
            (other_id b other d
              ((eq_iff b.proxy_id other).0 (find_holds (is_proxy other) proxies b h)))
            refl

key_of :
    (proxies : List Proxy) (id : String) (p : Proxy)
    → get_proxy proxies id ≡ some p
    → p.proxy_id ≡ id
unfolding get_proxy
key_of proxies id p h = (eq_iff p.proxy_id id).0 (find_holds (is_proxy id) proxies p h)

-- A registration gives back the row that it stored, with what the proxy sent. A proxy that was
-- registered before keeps the time of its first registration, and a new one gets the present time.
-- The row is in the table that the registration leaves, under its id, and no other id's row changes.
pub register_proxy-IsRegistered :
    (proxies : List Proxy) (id token host : String) (version : Option String) (now : ℕ)
    → (r : Proxy) × ((register_proxy proxies id token host version now).0 ≡ some r)
      × (get_proxy (register_proxy proxies id token host version now).1 id ≡ some r)
      × ((other : String)
          → id ≢ other
          → get_proxy (register_proxy proxies id token host version now).1 other
            ≡ get_proxy proxies other)
      × ((p : Proxy)
          → get_proxy proxies id ≡ some p
          → IsRegistered id token host version now p.registered_at r)
      × (get_proxy proxies id ≡ none → IsRegistered id token host version now (stamp now) r)
register_proxy-IsRegistered proxies id token host version now =
    elim (Option-cases (get_proxy proxies id)) [
      | inl h ↦ (
        new_proxy id token host version now,
        registered_new proxies id token host version now h,
        stored_new proxies id token host version now h,
        others_kept proxies id token host version now,
        (λ p k. absurd (none_ne_some (sym h ∙ k))),
        (λ k. record {
          key = refl;
          credentials = (refl, refl, refl);
          seen = refl;
          first_seen = refl;
        }),
      )
      | inr (p, h) ↦ (
        renew token host version now p,
        registered_again proxies id token host version now p h,
        stored_again proxies id token host version now p h,
        others_kept proxies id token host version now,
        (λ q k. record {
          key = key_of proxies id p h;
          credentials = (refl, refl, refl);
          seen = refl;
          first_seen = ap (λ (x : Proxy). x.registered_at) (some_inj (sym h ∙ k));
        }),
        (λ k. absurd (none_ne_some (sym k ∙ h))),
      )
    ]
