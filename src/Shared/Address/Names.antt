-- ===== src/Shared/Address/Names.antt =====
-- Which names an address of src/shared/address.ts may carry.
use agentic_collab.Common.{
  ◌≡◌, ◌≢◌, refl, inl, inr, true, none, some, [], ◌∷◌, ◌++◌, ◌==◌, arith, Text, Bool-cases,
  Option-cases,
}
use agentic_collab.Shared.Address.{
  agent, telegram, is_name_char, all_name_chars, name_re, split_colon, parse_agent, parse_telegram,
}

-- The texts before and after the first colon.
pub split_colon_append :
    (raw : Text) {p r : Text} → split_colon raw ≡ some (p, r) → raw ≡ p ++ b':' ∷ r
unfolding split_colon
split_colon_append [] h = ground arith
split_colon_append (c ∷ cs) {p} {r} h = elim (Bool-cases (c == b':')) [
  | inl e ↦ ground arith
  | inr e ↦ elim (Option-cases (split_colon cs)) [
    | inl m ↦ ground arith
    | inr ((q, s), m) ↦ ground (arith, split_colon_append cs m)
  ]
]

-- A name has no colon, so it is read whole.
pub split_colon_name : (cs : Text) → all_name_chars cs ≡ true → split_colon cs ≡ none
unfolding split_colon all_name_chars is_name_char
split_colon_name [] h = refl
split_colon_name (c ∷ cs) h = ground (arith, split_colon_name cs)

pub all_name_chars_of_name_re : (cs : Text) → name_re cs ≡ true → all_name_chars cs ≡ true
unfolding name_re
all_name_chars_of_name_re [] h = ground arith
all_name_chars_of_name_re (c ∷ cs) h = ground arith

pub parse_agent_sound :
    (raw rest name : Text)
    → parse_agent raw rest ≡ agent name
    → (rest ≡ name) × (name_re name ≡ true)
unfolding parse_agent
parse_agent_sound raw [] name h = ground arith
parse_agent_sound raw (c ∷ cs) name h = ground arith

pub parse_telegram_sound :
    (raw rest name : Text)
    → parse_telegram raw rest ≡ telegram name
    → (rest ≡ name) × (name_re name ≡ true)
unfolding parse_telegram
parse_telegram_sound raw [] name h = ground arith
parse_telegram_sound raw (c ∷ cs) name h = ground arith

pub parse_telegram-ne-agent : (raw rest name : Text) → parse_telegram raw rest ≢ agent name
unfolding parse_telegram
parse_telegram-ne-agent raw [] name h = ground arith
parse_telegram-ne-agent raw (c ∷ cs) name h = ground arith

pub parse_agent-ne-telegram : (raw rest name : Text) → parse_agent raw rest ≢ telegram name
unfolding parse_agent
parse_agent-ne-telegram raw [] name h = ground arith
parse_agent-ne-telegram raw (c ∷ cs) name h = ground arith
