-- ===== src/Engines/Parts.antt =====
-- Parts of the commands of src/orchestrator/adapters, and the words that a shell makes of them.
use agentic_collab.Common.{
  ◌≡◌, refl, ap, ap₂, sym, ◌∙◌, Bool, true, false, Option, none, some, List, [], ◌∷◌, ◌++◌, map,
  Text, All, if◌then◌else◌,
}
use agentic_collab.Lifecycle.Launch.{shell_quote}
use agentic_collab.Engines.{join_parts, pushed, pushed_if, flag}
use agentic_collab.Engines.Words.{
  Part, bare, literal, assigned, print_part, word_of, IsPart, IsPlain, between, read_words,
  read_words-join_parts,
}

-- The parts for a value that is there and not empty.
abbrev pub given {ℓ} : {A : Type ℓ} → Option Text → (Text → List A) → List A
given none f = []
given (some []) f = []
given (some (c ∷ cs)) f = f (c ∷ cs)

-- A value that stands in the command unquoted: without it nothing is asked.
abbrev pub IsPlainOption : Option Text → Type 0
IsPlainOption none = Unit
IsPlainOption (some []) = Unit
IsPlainOption (some (c ∷ cs)) = IsPlain (c ∷ cs)

map-append : {A B : Type 0} (f : A → B) (xs ys : List A) → map f (xs ++ ys) ≡ map f xs ++ map f ys
map-append f [] ys = refl
map-append f (x ∷ xs) ys = ap (λ zs. f x ∷ zs) (map-append f xs ys)

All-concat : {A : Type 0} (P : A → Type 0) (xs ys : List A) → All P xs → All P ys → All P (xs ++ ys)
All-concat P [] ys h k = k
All-concat P (x ∷ xs) ys (p, h) k = (p, All-concat P xs ys h k)

-- Parts that print to those that the code pushes.
pub record Prints (printed : List Text) (words : List Text) : Type 0 where
  pub parts : List Part
  pub IsParts : All IsPart parts
  pub prints : map print_part parts ≡ printed
  pub means : map word_of parts ≡ words

pub both : {ps qs vs ws : List Text} → Prints ps vs → Prints qs ws → Prints (ps ++ qs) (vs ++ ws)
both a b = record {
  parts = a.parts ++ b.parts;
  IsParts = All-concat IsPart a.parts b.parts a.IsParts b.IsParts;
  prints =
      map-append print_part a.parts b.parts
      ∙ ap₂ (λ (xs ys : List Text). xs ++ ys) a.prints b.prints;
  means =
      map-append word_of a.parts b.parts ∙ ap₂ (λ (xs ys : List Text). xs ++ ys) a.means b.means;
}

pub nothing : Prints [] []
nothing = record { parts = []; IsParts = tt; prints = refl; means = refl }

pub plain_part : (t : Text) → IsPlain t → Prints (t ∷ []) (t ∷ [])
plain_part t h = record { parts = bare t ∷ []; IsParts = (h, tt); prints = refl; means = refl }

pub quoted_part : (t : Text) → Prints (shell_quote t ∷ []) (t ∷ [])
quoted_part t = record { parts = literal t ∷ []; IsParts = (tt, tt); prints = refl; means = refl }

pub plain_flag :
    (name : Text)
    → IsPlain name
    → (o : Option Text) → IsPlainOption o
    → Prints (pushed o (flag name)) (given o (flag name))
plain_flag name n none h = nothing
plain_flag name n (some []) h = nothing
plain_flag name n (some (c ∷ cs)) h = both (plain_part name n) (plain_part (c ∷ cs) h)

pub quoted_flag :
    (name : Text)
    → IsPlain name
    → (o : Option Text) → Prints (pushed o (λ p. flag name (shell_quote p))) (given o (flag name))
quoted_flag name n none = nothing
quoted_flag name n (some []) = nothing
quoted_flag name n (some (c ∷ cs)) = both (plain_part name n) (quoted_part (c ∷ cs))

-- A flag with the agent's name, for a value that is there.
pub named_flag :
    (name : Text)
    → IsPlain name
    → (v : Text) → IsPlain v
    → (o : Option Text) → Prints (pushed o (λ p. flag name v)) (given o (λ p. flag name v))
named_flag name n v h none = nothing
named_flag name n v h (some []) = nothing
named_flag name n v h (some (c ∷ cs)) = both (plain_part name n) (plain_part v h)

pub assigned_part :
    (k t : Text)
    → IsPlain k
    → (o : Option Text)
    → Prints (pushed o (λ p. (k ++ shell_quote t) ∷ [])) (given o (λ p. (k ++ t) ∷ []))
assigned_part k t h none = nothing
assigned_part k t h (some []) = nothing
assigned_part k t h (some (c ∷ cs)) = record {
  parts = assigned k t ∷ [];
  IsParts = (h, tt);
  prints = refl;
  means = refl;
}

pub quoted_last :
    (o : Option Text) → Prints (pushed o (λ t. shell_quote t ∷ [])) (given o (λ t. t ∷ []))
quoted_last none = nothing
quoted_last (some []) = nothing
quoted_last (some (c ∷ cs)) = quoted_part (c ∷ cs)

pub plain_if :
    (b : Bool) (t : Text) → IsPlain t → Prints (pushed_if b (t ∷ [])) (if b then t ∷ [] else [])
plain_if true t h = plain_part t h
plain_if false t h = nothing

-- A command of parts is read as the words that the parts mean.
pub read_command : (ps ws : List Text) → Prints ps ws → read_words (join_parts ps) between ≡ some ws
read_command ps ws a =
    ap (λ ts. read_words (join_parts ts) between) (sym a.prints)
    ∙ read_words-join_parts a.parts a.IsParts
    ∙ ap (λ vs. some vs) a.means
