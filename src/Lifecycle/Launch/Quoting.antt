-- ===== src/Lifecycle/Launch/Quoting.antt =====
-- What a shell reads from a quoted text (`shellQuote` of src/shared/utils.ts), and which variables a
-- launch exports.
use agentic_collab.Common.{
  ◌≡◌, refl, Option, none, some, [], ◌∷◌, ◌++◌, ◌==◌, if◌then◌else◌, Text, arith, inl, inr,
  Bool-cases, map_option,
}
use agentic_collab.Lifecycle.Launch.{quote, backslash, escape_quotes, shell_quote}

-- Where the reader of a POSIX shell word stands: outside of quotes, between single quotes, or after
-- a backslash outside of quotes.
pub data Mode : Type 0 where
  plain quoted escaped : Mode

-- The word that the shell makes of a text of quoted parts and escaped characters; `none` where the
-- text is another one or a quote is left open.
abbrev pub read_word : Mode → Text → Option Text
read_word plain [] = some []
read_word quoted [] = none
read_word escaped [] = none
read_word plain (c ∷ cs) =
    if c == quote
    then read_word quoted cs
    else (if c == backslash then read_word escaped cs else none)
read_word quoted (c ∷ cs) =
    if c == quote then read_word plain cs else map_option (λ w. c ∷ w) (read_word quoted cs)
read_word escaped (c ∷ cs) = map_option (λ w. c ∷ w) (read_word plain cs)

read_escaped : (s : Text) → read_word quoted (escape_quotes s ++ quote ∷ []) ≡ some s
read_escaped [] = refl
read_escaped (c ∷ cs) = elim (Bool-cases (c == quote)) [
  | inl e ↦ rw e (rw (read_escaped cs) (ground arith))
  | inr e ↦ rw (e, e) (rw (read_escaped cs) refl)
]

-- A shell reads the quoted text as one word, which is the text itself, whatever characters it has.
pub read-shell_quote : (s : Text) → read_word plain (shell_quote s) ≡ some s
unfolding shell_quote
read-shell_quote s = read_escaped s
