-- ===== src/Engines/Words.antt =====
-- How a shell splits a command into words, for commands of plain words and `shellQuote`d texts
-- (src/shared/utils.ts).
use agentic_collab.Common.{
  ◌≡◌, refl, ap, sym, ◌∙◌, ℕ, Bool, true, false, ◌&&◌, ◌||◌, Option, none, some, List, [], ◌∷◌,
  ◌++◌, map, leb, ◌==◌, Text, if◌then◌else◌, All, append_assoc, append_nil, arith, inl, inr,
  Bool-cases, map_option,
}
use agentic_collab.Lifecycle.Launch.{quote, backslash, escape_quotes, shell_quote}
use agentic_collab.Engines.{join_parts}

-- A character that no shell gives a meaning: letters, digits, and `% + , - . / : = @ _`.
unfoldable pub is_plain : ℕ → Bool
is_plain c =
    (leb 48 c && leb c 57)
    || ((leb 65 c && leb c 90)
        || ((leb 97 c && leb c 122)
            || ((c == 37)
                || ((c == 43)
                    || ((leb 44 c && leb c 47)
                        || ((c == 58) || ((c == 61) || ((c == 64) || (c == 95)))))))))

-- Where the reader stands: between words, or in a word with the text so far, and there outside of
-- quotes, between single quotes, or after a backslash.
pub data Reading : Type 0 where
  between : Reading
  inside quoted escaped : Text → Reading

-- A character that starts or continues a word outside of quotes; `none` for one with a meaning that
-- this reader leaves open.
unfoldable pub continue_word : Text → ℕ → Option Reading
continue_word w c =
    if c == quote
    then some (quoted w)
    else if c == backslash
    then some (escaped w)
    else if is_plain c
    then some (inside (w ++ c ∷ []))
    else none

abbrev pub add_word : Option Text → Option (List Text) → Option (List Text)
add_word none ws = ws
add_word (some w) ws = map_option (λ vs. w ∷ vs) ws

-- The word that a character ends, and where the reader is after it.
unfoldable pub next_reading : Reading → ℕ → Option Text × Option Reading
next_reading between c = (none, if c == b' ' then some between else continue_word [] c)
next_reading (inside w) c = if c == b' ' then (some w, some between) else (none, continue_word w c)
next_reading (quoted w) c = (none, some (if c == quote then inside w else quoted (w ++ c ∷ [])))
next_reading (escaped w) c = (none, some (inside (w ++ c ∷ [])))

abbrev pub with_reading : (Reading → Option (List Text)) → Option Reading → Option (List Text)
with_reading f none = none
with_reading f (some r) = f r

unfoldable pub read_words : Text → Reading → Option (List Text)
read_words [] between = some []
read_words [] (inside w) = some (w ∷ [])
read_words [] (quoted w) = none
read_words [] (escaped w) = none
read_words (c ∷ cs) r = let n = next_reading r c in add_word n.0 (with_reading (read_words cs) n.1)

-- A part of a command: plain, quoted, or a plain text with a quoted one after it.
pub data Part : Type 0 where
  bare : Text → Part
  literal : Text → Part
  assigned : Text → Text → Part

abbrev pub print_part : Part → Text
print_part (bare t) = t
print_part (literal t) = shell_quote t
print_part (assigned k t) = k ++ shell_quote t

-- The word that the part means.
abbrev pub word_of : Part → Text
word_of (bare t) = t
word_of (literal t) = t
word_of (assigned k t) = k ++ t

unfoldable pub all_plain : Text → Bool
all_plain [] = true
all_plain (c ∷ cs) = is_plain c && all_plain cs

unfoldable pub plain_word : Text → Bool
plain_word [] = false
plain_word (c ∷ cs) = all_plain (c ∷ cs)

abbrev pub IsPlain : Text → Type 0
IsPlain t = plain_word t ≡ true

abbrev pub IsPart : Part → Type 0
IsPart (bare t) = IsPlain t
IsPart (literal t) = Unit
IsPart (assigned k t) = IsPlain k

plain_char :
    (c : ℕ)
    → is_plain c ≡ true
    → ((c == b' ') ≡ false) × ((c == quote) ≡ false) × ((c == backslash) ≡ false)
unfolding is_plain
plain_char c h = ground arith

passes_plain :
    (w t rest : Text)
    → all_plain t ≡ true
    → read_words (t ++ rest) (inside w) ≡ read_words rest (inside (w ++ t))
unfolding read_words next_reading continue_word all_plain
passes_plain w [] rest h = ap (λ v. read_words rest (inside v)) (sym (append_nil w))
passes_plain w (c ∷ cs) rest k =
    let p : is_plain c ≡ true = ground arith in
    let h : all_plain cs ≡ true = ground arith in
    let (x, y, z) = plain_char c p in
    rw (x, y, z, p)
      (passes_plain (w ++ c ∷ []) cs rest h
        ∙ ap (λ v. read_words rest (inside v)) (append_assoc w (c ∷ []) cs))

-- A word that starts with a plain text.
starts_plain :
    (t rest : Text) → IsPlain t → read_words (t ++ rest) between ≡ read_words rest (inside t)
unfolding read_words next_reading continue_word all_plain plain_word
starts_plain [] rest h = ground arith
starts_plain (c ∷ cs) rest k =
    let p : is_plain c ≡ true = ground arith in
    let h : all_plain cs ≡ true = ground arith in
    let (x, y, z) = plain_char c p in rw (x, y, z, p) (passes_plain (c ∷ []) cs rest h)

passes_escaped :
    (w t rest : Text)
    → read_words (escape_quotes t ++ (quote ∷ rest)) (quoted w) ≡ read_words rest (inside (w ++ t))
unfolding read_words next_reading continue_word
passes_escaped w [] rest = ap (λ v. read_words rest (inside v)) (sym (append_nil w))
passes_escaped w (c ∷ cs) rest = elim (Bool-cases (c == quote)) [
  | inl e ↦
      let q : c ≡ quote = ground arith in
      rw e (
        passes_escaped (w ++ quote ∷ []) cs rest
        ∙ ap (λ v. read_words rest (inside v)) (append_assoc w (quote ∷ []) cs)
        ∙ ap (λ d. read_words rest (inside (w ++ (d ∷ cs)))) (sym q))
  | inr e ↦
      rw (e, e)
        (passes_escaped (w ++ c ∷ []) cs rest
          ∙ ap (λ v. read_words rest (inside v)) (append_assoc w (c ∷ []) cs))
]

-- A quoted text is read to its end, whatever characters it has.
passes_quoted :
    (w t rest : Text)
    → read_words (shell_quote t ++ rest) (inside w) ≡ read_words rest (inside (w ++ t))
unfolding shell_quote read_words next_reading continue_word
passes_quoted w t rest =
    ap (λ v. read_words v (quoted w)) (append_assoc (escape_quotes t) (quote ∷ []) rest)
    ∙ passes_escaped w t rest

starts_quoted :
    (t rest : Text) → read_words (shell_quote t ++ rest) between ≡ read_words rest (inside t)
unfolding shell_quote read_words next_reading continue_word
starts_quoted t rest =
    ap (λ v. read_words v (quoted [])) (append_assoc (escape_quotes t) (quote ∷ []) rest)
    ∙ passes_escaped [] t rest

starts_part :
    (p : Part) (rest : Text)
    → IsPart p
    → read_words (print_part p ++ rest) between ≡ read_words rest (inside (word_of p))
starts_part (bare t) rest h = starts_plain t rest h
starts_part (literal t) rest h = starts_quoted t rest
starts_part (assigned k t) rest h =
    ap (λ v. read_words v between) (append_assoc k (shell_quote t) rest)
    ∙ starts_plain k (shell_quote t ++ rest) h
    ∙ passes_quoted k t rest

read_end : (w : Text) → read_words [] (inside w) ≡ some (w ∷ [])
unfolding read_words
read_end w = refl

read_space :
    (w rest : Text)
    → read_words (b' ' ∷ rest) (inside w) ≡ map_option (λ vs. w ∷ vs) (read_words rest between)
unfolding read_words next_reading
read_space w rest = refl

read_words_from :
    (p : Part) (ps : List Part)
    → All IsPart (p ∷ ps)
    → read_words (join_parts (map print_part (p ∷ ps))) between ≡ some (map word_of (p ∷ ps))
unfolding join_parts
read_words_from p [] (h, _) =
    ap (λ v. read_words v between) (sym (append_nil (print_part p)))
    ∙ starts_part p [] h
    ∙ read_end (word_of p)
read_words_from p (q ∷ ps) (h, hs) =
    starts_part p (b' ' ∷ join_parts (map print_part (q ∷ ps))) h
    ∙ read_space (word_of p) (join_parts (map print_part (q ∷ ps)))
    ∙ ap (map_option (λ vs. word_of p ∷ vs)) (read_words_from q ps hs)

-- The shell reads a command made of such parts as one word for each part, its text.
pub read_words-join_parts :
    (ps : List Part)
    → All IsPart ps
    → read_words (join_parts (map print_part ps)) between ≡ some (map word_of ps)
unfolding join_parts read_words
read_words-join_parts [] h = refl
read_words-join_parts (p ∷ ps) h = read_words_from p ps h
