-- ===== src/Shared/Sanitize/Cleaning.antt =====
-- What `sanitizeMessage` of src/shared/sanitize.ts guarantees.
use agentic_collab.Common.{
  ◌<◌, ◌⊎◌, ◌≡◌, refl, ap, ◌∙◌, subst, ℕ, zero, suc, ◌≤◌, false, not, Option, none, [], ◌∷◌, ltb,
  ◌==◌, Text, select, length, All, arith, inl, inr, Bool-cases, ◌↔◌, if◌then◌else◌,
}
use agentic_collab.Shared.Sanitize.{
  max_message_length, opening, csi, osc, truncated_osc, other_escape, strip, is_control, take,
  cleaned, sanitize_message,
}

-- No control character but a tab, a line feed and a carriage return.
abbrev pub IsPlain : Text → Type 0
IsPlain t = All (λ c. is_control c ≡ false) t

select-IsPlain : (t : Text) → IsPlain (select (λ c. not (is_control c)) t)
select-IsPlain [] = tt
select-IsPlain (c ∷ cs) = elim (Bool-cases (is_control c)) [
  | inl e ↦ rw e (select-IsPlain cs)
  | inr e ↦ rw e (e, select-IsPlain cs)
]

take-IsPlain : (n : ℕ) (t : Text) → IsPlain t → IsPlain (take n t)
take-IsPlain zero t p = tt
take-IsPlain (suc n) [] p = tt
take-IsPlain (suc n) (c ∷ cs) (e, p) = (e, take-IsPlain n cs p)

length-take : (n : ℕ) (t : Text) → length (take n t) ≤ n
length-take zero t = omega arith
length-take (suc n) [] = omega arith
length-take (suc n) (c ∷ cs) = omega (arith, length-take n cs)

-- The cut at the end of `sanitizeMessage`.
abbrev pub cut : Text → Text
cut t = if ltb max_message_length (length t) then take max_message_length t else t

cut-IsPlain : (t : Text) → IsPlain t → IsPlain (cut t) × (length (cut t) ≤ 16384)
cut-IsPlain t p = elim (Bool-cases (ltb max_message_length (length t))) [
  | inl e ↦ rw e (take-IsPlain max_message_length t p, length-take max_message_length t)
  | inr e ↦ rw e (p, ground arith)
]

not_longer : (m n : ℕ) → n ≤ m → ltb m n ≡ false
not_longer m n h = ground arith

pub cut_short : (t : Text) → length t ≤ 16384 → cut t ≡ t
cut_short t h = rw (not_longer max_message_length (length t) h) refl

sanitize_message-IsPlain :
    (t : Text) → IsPlain (sanitize_message t) × (length (sanitize_message t) ≤ 16384)
unfolding sanitize_message cleaned
sanitize_message-IsPlain t = cut-IsPlain (cleaned t) (select-IsPlain _)

-- A tab, a line feed, a carriage return, or a unit that is neither below 32 nor from 127 to 159.
abbrev pub IsText : ℕ → Type 0
IsText c = (c ≡ 9) ⊎ ((c ≡ 10) ⊎ ((c ≡ 13) ⊎ (((32 ≤ c) × (c < 127)) ⊎ (160 ≤ c))))

IsText-of : (c : ℕ) → is_control c ≡ false → IsText c
unfolding is_control
IsText-of c h = grind arith

All-IsText : (t : Text) → IsPlain t → All IsText t
All-IsText [] p = tt
All-IsText (c ∷ cs) (e, p) = (IsText-of c e, All-IsText cs p)

-- What is sanitized consists of tabs, line feeds, carriage returns and units that are neither below
-- 32 nor from 127 to 159, so it has no escape sequence either, and of at most 16384 code units.
pub sanitize_message-IsText :
    (t : Text) → All IsText (sanitize_message t) × (length (sanitize_message t) ≤ 16384)
sanitize_message-IsText t =
    let (p, h) = sanitize_message-IsPlain t in (All-IsText (sanitize_message t) p, h)

pub select_plain : (t : Text) → IsPlain t → select (λ c. not (is_control c)) t ≡ t
select_plain [] p = refl
select_plain (c ∷ cs) (e, p) = rw e (ap (λ r. c ∷ r) (select_plain cs p))

pub escape_control : (c : ℕ) → is_control c ≡ false → (c == 27) ≡ false
unfolding is_control
escape_control c e = ground arith

module _ (match_at : Text → Option ℕ)
    (h : (c : ℕ) (cs : Text) → (c == 27) ≡ false → match_at (c ∷ cs) ≡ none) where
  pub strip_plain : (t : Text) → IsPlain t → strip match_at 0 t ≡ t
  unfolding strip
  strip_plain [] p = refl
  strip_plain (c ∷ cs) (e, p) =
      rw (h c cs (escape_control c e), strip) (ap (λ r. c ∷ r) (strip_plain cs p))

opening-none : (b c : ℕ) (cs : Text) → (c == 27) ≡ false → opening b (c ∷ cs) ≡ none
opening-none b c [] e = refl
opening-none b c (d ∷ cs) e = rw e refl

pub csi-none : (c : ℕ) (cs : Text) → (c == 27) ≡ false → csi (c ∷ cs) ≡ none
unfolding csi
csi-none c cs e = rw (opening-none b'[' c cs e, csi) refl

pub osc-none : (c : ℕ) (cs : Text) → (c == 27) ≡ false → osc (c ∷ cs) ≡ none
unfolding osc
osc-none c cs e = rw (opening-none b']' c cs e, osc) refl

pub truncated_osc-none : (c : ℕ) (cs : Text) → (c == 27) ≡ false → truncated_osc (c ∷ cs) ≡ none
unfolding truncated_osc
truncated_osc-none c cs e = rw (opening-none b']' c cs e, truncated_osc) refl

pub other_escape-none : (c : ℕ) (cs : Text) → (c == 27) ≡ false → other_escape (c ∷ cs) ≡ none
unfolding other_escape
other_escape-none c [] e = refl
other_escape-none c (d ∷ cs) e = rw e refl

-- Where the first two passes leave plain text, nothing more is stripped.
pub cleaned-osc : (t s : Text) → strip osc 0 (strip csi 0 t) ≡ s → IsPlain s → cleaned t ≡ s
unfolding cleaned
cleaned-osc t s e p =
    rw
      (
        e,
        strip_plain truncated_osc truncated_osc-none s p,
        strip_plain other_escape other_escape-none s p,
      )
      (select_plain s p)

passes_plain : (t : Text) → IsPlain t → strip osc 0 (strip csi 0 t) ≡ t
passes_plain t p = ap (strip osc 0) (strip_plain csi csi-none t p) ∙ strip_plain osc osc-none t p

-- A message goes through unchanged exactly when it has no control character but tabs, line feeds and
-- carriage returns and at most 16384 code units; in particular a second pass changes nothing.
pub sanitize_message-fixed_iff :
    (t : Text) → (sanitize_message t ≡ t) ↔ (IsPlain t × (length t ≤ 16384))
unfolding sanitize_message
sanitize_message-fixed_iff t = (
  λ e. subst (λ s. IsPlain s × (length s ≤ 16384)) e (sanitize_message-IsPlain t),
  λ p. ap cut (cleaned-osc t t (passes_plain t p.0) p.0) ∙ cut_short t p.1,
)
