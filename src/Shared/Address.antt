-- ===== src/Shared/Address.antt =====
-- src/shared/address.ts: `agent:<name>` and `telegram:<agent>` addresses. A text is the list of its
-- UTF-16 code units, and a reason names the message that the source builds from the same parts.
pub mod Names
pub mod RoundTrip
use agentic_collab.Common.{
  ℕ, ◌-◌, Bool, true, false, ◌&&◌, ◌||◌, Option, none, some, List, [], ◌∷◌, ◌++◌, leb, ◌==◌, length,
  if◌then◌else◌, not, Text, text_eq, codes,
}

-- What a caller hands over: a string, or another value with its rendering by `String(raw)`.
pub data Raw : Type 0 where
  str : Text → Raw
  other : Text → Raw

pub data Reason : Type 0 where
  not_a_string empty_address empty_agent_name empty_telegram_name : Reason
  bad_bare_name unknown_prefix bad_agent_name bad_telegram_name : Text → Reason

pub data Address : Type 0 where
  agent : Text → Address
  telegram : Text → Address
  malformed : Text → Reason → Address

-- `[a-zA-Z0-9]`
pub is_alnum : ℕ → Bool
is_alnum c = (leb b'a' c && leb c b'z') || (leb b'A' c && leb c b'Z') || (leb b'0' c && leb c b'9')

-- `[a-zA-Z0-9_-]`
pub is_name_char : ℕ → Bool
unfolding is_alnum
is_name_char c = is_alnum c || c == b'_' || c == b'-'

pub all_name_chars : Text → Bool
all_name_chars [] = true
all_name_chars (c ∷ cs) = is_name_char c && all_name_chars cs

-- `NAME_RE = /^[a-zA-Z0-9][a-zA-Z0-9_-]{0,62}$/`
pub name_re : Text → Bool
unfolding is_alnum is_name_char all_name_chars
name_re [] = false
name_re (c ∷ cs) = is_alnum c && (leb (length cs) 62 && all_name_chars cs)

-- `raw.indexOf(':')` with the two slices around it.
pub split_colon : Text → Option (Text × Text)
split_colon [] = none
split_colon (c ∷ cs) =
    if c == b':'
    then some ([], cs)
    else elim (split_colon cs) [ none ↦ none | some (p, r) ↦ some (c ∷ p, r) ]

abbrev pub agent_prefix : Text
agent_prefix = codes "agent"

abbrev pub telegram_prefix : Text
telegram_prefix = codes "telegram"

-- `KNOWN_PREFIXES.has(prefix)`
pub known_prefix : Text → Bool
known_prefix p = text_eq p agent_prefix || text_eq p telegram_prefix

pub parse_bare : Text → Address
parse_bare raw = if name_re raw then agent raw else malformed raw (bad_bare_name raw)

pub parse_agent : Text → Text → Address
parse_agent raw [] = malformed raw empty_agent_name
parse_agent raw (c ∷ cs) =
    if name_re (c ∷ cs) then agent (c ∷ cs) else malformed raw (bad_agent_name (c ∷ cs))

pub parse_telegram : Text → Text → Address
parse_telegram raw [] = malformed raw empty_telegram_name
parse_telegram raw (c ∷ cs) =
    if name_re (c ∷ cs) then telegram (c ∷ cs) else malformed raw (bad_telegram_name (c ∷ cs))

pub parse_prefixed : Text → Text → Text → Address
unfolding known_prefix parse_agent parse_telegram
parse_prefixed raw prefix rest =
    if not (known_prefix prefix)
    then malformed raw (unknown_prefix prefix)
    else if text_eq prefix agent_prefix
    then parse_agent raw rest
    else parse_telegram raw rest

pub parse_address : Raw → Address
unfolding name_re split_colon parse_bare parse_prefixed
parse_address (other shown) = malformed shown not_a_string
parse_address (str []) = malformed [] empty_address
parse_address (str (c ∷ cs)) = elim (split_colon (c ∷ cs)) [
  | none ↦ parse_bare (c ∷ cs)
  | some (prefix, rest) ↦ parse_prefixed (c ∷ cs) prefix rest
]

pub address_to_string : Address → Text
address_to_string (agent name) = agent_prefix ++ b':' ∷ name
address_to_string (telegram name) = telegram_prefix ++ b':' ∷ name
address_to_string (malformed raw reason) = raw
