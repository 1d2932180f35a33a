-- ===== src/Shared/Address/RoundTrip.antt =====
-- Which texts src/shared/address.ts reads as which address.
use agentic_collab.Common.{
  ◌≡◌, refl, ap₂, ◌∙◌, ◌≢◌, ◌⊎◌, ◌↔◌, inl, inr, true, [], ◌∷◌, ◌++◌, arith, Text, eq_of_text_eq,
  Option-cases,
}
use agentic_collab.Shared.Address.{
  Address, agent, telegram, malformed, Reason, str, name_re, split_colon, known_prefix,
  agent_prefix, telegram_prefix, parse_bare, parse_agent, parse_telegram, parse_prefixed,
  parse_address, address_to_string,
}
use agentic_collab.Shared.Address.Names.{
  parse_telegram-ne-agent, parse_agent-ne-telegram, split_colon_append, split_colon_name,
  all_name_chars_of_name_re, parse_agent_sound, parse_telegram_sound,
}

parse_prefixed_agent :
    (raw prefix rest name : Text)
    → parse_prefixed raw prefix rest ≡ agent name
    → (prefix ≡ agent_prefix) × (rest ≡ name) × (name_re name ≡ true)
unfolding parse_prefixed known_prefix
parse_prefixed_agent raw prefix rest name h = ground (
  arith,
  eq_of_text_eq prefix agent_prefix,
  parse_agent_sound raw rest name,
  parse_telegram-ne-agent raw rest name,
)

parse_prefixed_telegram :
    (raw prefix rest name : Text)
    → parse_prefixed raw prefix rest ≡ telegram name
    → (prefix ≡ telegram_prefix) × (rest ≡ name) × (name_re name ≡ true)
unfolding parse_prefixed known_prefix
parse_prefixed_telegram raw prefix rest name h = ground (
  arith,
  eq_of_text_eq prefix telegram_prefix,
  parse_telegram_sound raw rest name,
  parse_agent-ne-telegram raw rest name,
)

parse_agent_name : (raw name : Text) → name_re name ≡ true → parse_agent raw name ≡ agent name
unfolding parse_agent name_re
parse_agent_name raw [] h = ground arith
parse_agent_name raw (c ∷ cs) h = ground arith

parse_telegram_name :
    (raw name : Text) → name_re name ≡ true → parse_telegram raw name ≡ telegram name
unfolding parse_telegram name_re
parse_telegram_name raw [] h = ground arith
parse_telegram_name raw (c ∷ cs) h = ground arith

-- A text that splits at its first colon, with the two parts replaced by equals.
joined : {raw p r p' r' : Text} → raw ≡ p ++ b':' ∷ r → p ≡ p' → r ≡ r' → raw ≡ p' ++ b':' ∷ r'
joined e ep er = e ∙ ap₂ (λ (q s : Text). q ++ b':' ∷ s) ep er

parse_bare_agent :
    (raw name : Text) → parse_bare raw ≡ agent name → (name_re name ≡ true) × (raw ≡ name)
unfolding parse_bare
parse_bare_agent raw name h = ground arith

parse_bare-ne-telegram : (raw name : Text) → parse_bare raw ≢ telegram name
unfolding parse_bare
parse_bare-ne-telegram raw name h = ground arith

parse_agent_forms :
    (raw name : Text)
    → parse_address (str raw) ≡ agent name
    → (name_re name ≡ true) × ((raw ≡ name) ⊎ (raw ≡ agent_prefix ++ b':' ∷ name))
unfolding parse_address
parse_agent_forms [] name h = ground arith
parse_agent_forms (c ∷ cs) name h = elim (Option-cases (split_colon (c ∷ cs))) [
  | inl m ↦ let (nm, e) = parse_bare_agent (c ∷ cs) name (rw (m, parse_address) at h) in (nm, inl e)
  | inr ((p, r), m) ↦
      let (ep, er, nm) = parse_prefixed_agent (c ∷ cs) p r name (rw (m, parse_address) at h) in
      (nm, inr (joined (split_colon_append (c ∷ cs) m) ep er))
]

parse_telegram_form :
    (raw name : Text)
    → parse_address (str raw) ≡ telegram name
    → (name_re name ≡ true) × (raw ≡ telegram_prefix ++ b':' ∷ name)
unfolding parse_address
parse_telegram_form [] name h = ground arith
parse_telegram_form (c ∷ cs) name h = elim (Option-cases (split_colon (c ∷ cs))) [
  | inl m ↦ absurd (parse_bare-ne-telegram (c ∷ cs) name (rw (m, parse_address) at h))
  | inr ((p, r), m) ↦
      let (ep, er, nm) = parse_prefixed_telegram (c ∷ cs) p r name (rw (m, parse_address) at h) in
      (nm, joined (split_colon_append (c ∷ cs) m) ep er)
]

parse_name : (name : Text) → name_re name ≡ true → parse_address (str name) ≡ agent name
unfolding parse_address name_re parse_bare
parse_name [] h = ground arith
parse_name (c ∷ cs) h =
    rw (split_colon_name (c ∷ cs) (all_name_chars_of_name_re (c ∷ cs) h), parse_address)
      (ground arith)

parse_agent_rendered :
    (name : Text)
    → name_re name ≡ true
    → parse_address (str (agent_prefix ++ b':' ∷ name)) ≡ agent name
unfolding parse_address split_colon parse_prefixed known_prefix
parse_agent_rendered name h = parse_agent_name _ name h

parse_telegram_rendered :
    (name : Text)
    → name_re name ≡ true
    → parse_address (str (telegram_prefix ++ b':' ∷ name)) ≡ telegram name
unfolding parse_address split_colon parse_prefixed known_prefix
parse_telegram_rendered name h = parse_telegram_name _ name h

-- A string is read as the agent `name` exactly when `name` matches `NAME_RE` and the string is the
-- bare name or `agent:` followed by it.
pub parse_address-agent_iff :
    (raw name : Text)
    → (parse_address (str raw) ≡ agent name)
      ↔ ((name_re name ≡ true) × ((raw ≡ name) ⊎ (raw ≡ agent_prefix ++ b':' ∷ name)))
parse_address-agent_iff raw name = (
  parse_agent_forms raw name,
  λ (nm, forms). elim forms [
    | inl e ↦ rw e (parse_name name nm)
    | inr e ↦ rw e (parse_agent_rendered name nm)
  ],
)

-- A string is read as the Telegram channel of `name` exactly when `name` matches `NAME_RE` and the
-- string is `telegram:` followed by it.
pub parse_address-telegram_iff :
    (raw name : Text)
    → (parse_address (str raw) ≡ telegram name)
      ↔ ((name_re name ≡ true) × (raw ≡ telegram_prefix ++ b':' ∷ name))
parse_address-telegram_iff raw name =
    (parse_telegram_form raw name, λ (nm, e). rw e (parse_telegram_rendered name nm))

parse_prefixed_raw :
    (raw prefix rest r : Text) (reason : Reason)
    → parse_prefixed raw prefix rest ≡ malformed r reason
    → raw ≡ r
unfolding parse_prefixed parse_agent parse_telegram
parse_prefixed_raw raw prefix [] r reason h = ground arith
parse_prefixed_raw raw prefix (c ∷ cs) r reason h = ground arith

parse_bare_raw : (raw r : Text) (reason : Reason) → parse_bare raw ≡ malformed r reason → raw ≡ r
unfolding parse_bare
parse_bare_raw raw r reason h = ground arith

parse_malformed_raw :
    (raw r : Text) (reason : Reason) → parse_address (str raw) ≡ malformed r reason → raw ≡ r
unfolding parse_address
parse_malformed_raw [] r reason h = ground arith
parse_malformed_raw (c ∷ cs) r reason h = elim (Option-cases (split_colon (c ∷ cs))) [
  | inl m ↦ parse_bare_raw (c ∷ cs) r reason (rw (m, parse_address) at h)
  | inr ((p, q), m) ↦ parse_prefixed_raw (c ∷ cs) p q r reason (rw (m, parse_address) at h)
]

parse_rendered :
    (raw : Text) (a : Address)
    → parse_address (str raw) ≡ a
    → parse_address (str (address_to_string a)) ≡ a
unfolding address_to_string
parse_rendered raw (agent name) h = parse_agent_rendered name (parse_agent_forms raw name h).0
parse_rendered raw (telegram name) h =
    parse_telegram_rendered name (parse_telegram_form raw name h).0
parse_rendered raw (malformed r reason) h = let e = parse_malformed_raw raw r reason h in rw e at h

-- Rendering what a string was parsed to and parsing that again gives the same address, also for a
-- malformed string.
pub parse-address_to_string :
    (raw : Text)
    → parse_address (str (address_to_string (parse_address (str raw)))) ≡ parse_address (str raw)
parse-address_to_string raw = parse_rendered raw (parse_address (str raw)) refl
