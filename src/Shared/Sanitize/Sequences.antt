-- ===== src/Shared/Sanitize/Sequences.antt =====
-- Escape sequences in a message that src/shared/sanitize.ts cleans.
use agentic_collab.Common.{
  ◌≡◌, refl, ap, ◌∙◌, ℕ, suc, ◌+◌, ◌≤◌, true, false, Option, some, List, [], ◌∷◌, ◌++◌, Text,
  length, All, arith, ◌==◌,
}
use agentic_collab.Shared.Sanitize.{
  is_parameter, is_letter, csi_end, csi, osc_end, osc, strip, is_control, sanitize_message,
}
use agentic_collab.Shared.Sanitize.Cleaning.{
  IsPlain, cut, cut_short, escape_control, csi-none, osc-none, cleaned-osc,
}

-- A message with terminal sequences: units of text, `ESC [ parameters letter`, and `ESC ] title BEL`.
pub data Piece : Type 0 where
  unit : ℕ → Piece
  sequence : Text → ℕ → Piece
  title : Text → Piece

unfoldable pub render : List Piece → Text
render [] = []
render (unit c ∷ ps) = c ∷ render ps
render (sequence xs c ∷ ps) = 27 ∷ b'[' ∷ (xs ++ c ∷ render ps)
render (title xs ∷ ps) = 27 ∷ b']' ∷ (xs ++ 7 ∷ render ps)

-- What the first pass leaves.
unfoldable with_titles : List Piece → Text
with_titles [] = []
with_titles (unit c ∷ ps) = c ∷ with_titles ps
with_titles (sequence xs c ∷ ps) = with_titles ps
with_titles (title xs ∷ ps) = 27 ∷ b']' ∷ (xs ++ 7 ∷ with_titles ps)

unfoldable pub units : List Piece → Text
units [] = []
units (unit c ∷ ps) = c ∷ units ps
units (sequence xs c ∷ ps) = units ps
units (title xs ∷ ps) = units ps

abbrev pub IsWellFormed : Piece → Type 0
IsWellFormed (unit c) = is_control c ≡ false
IsWellFormed (sequence xs c) = All (λ x. is_parameter x ≡ true) xs × (is_letter c ≡ true)
IsWellFormed (title xs) = IsPlain xs

letter_parameter : (c : ℕ) → is_letter c ≡ true → is_parameter c ≡ false
letter_parameter c h = ground arith

csi_end_sequence :
    (xs : Text) (n c : ℕ) (r : Text)
    → All (λ x. is_parameter x ≡ true) xs
    → is_letter c ≡ true
    → csi_end n (xs ++ c ∷ r) ≡ some (suc (n + length xs))
unfolding csi_end
csi_end_sequence [] n c r p h = rw (letter_parameter c h, h) (ap some (omega arith))
csi_end_sequence (x ∷ xs) n c r (e, p) h =
    rw e (csi_end_sequence xs (n + 1) c r p h ∙ ap some (omega arith))

strip_over :
    (match_at : Text → Option ℕ) (xs : Text) (c : ℕ) (r : Text)
    → strip match_at (suc (length xs)) (xs ++ c ∷ r) ≡ strip match_at 0 r
unfolding strip
strip_over match_at [] c r = refl
strip_over match_at (x ∷ xs) c r = strip_over match_at xs c r

strip-sequence :
    (xs : Text) (c : ℕ) (r : Text)
    → All (λ x. is_parameter x ≡ true) xs
    → is_letter c ≡ true
    → strip csi 0 (27 ∷ b'[' ∷ (xs ++ c ∷ r)) ≡ strip csi 0 r
unfolding strip csi
strip-sequence xs c r p h =
    let ends : csi_end 1 (xs ++ c ∷ r) ≡ some (suc (suc (length xs))) =
      csi_end_sequence xs 1 c r p h ∙ ap some (omega arith) in
    rw (ends, strip) (strip_over csi xs c r)

strip_prefix : (xs r : Text) → IsPlain xs → strip csi 0 (xs ++ r) ≡ xs ++ strip csi 0 r
unfolding strip
strip_prefix [] r p = refl
strip_prefix (x ∷ xs) r (e, p) =
    rw (csi-none x (xs ++ r) (escape_control x e), strip) (ap (λ t. x ∷ t) (strip_prefix xs r p))

strip_title :
    (xs r : Text)
    → IsPlain xs
    → strip csi 0 (27 ∷ b']' ∷ (xs ++ 7 ∷ r)) ≡ 27 ∷ b']' ∷ (xs ++ 7 ∷ strip csi 0 r)
unfolding strip csi
strip_title xs r p =
    ap (λ t. 27 ∷ t)
      (rw (csi-none b']' (xs ++ 7 ∷ r) refl, strip)
        (ap (λ t. b']' ∷ t)
          (strip_prefix xs (7 ∷ r) p ∙ ap (λ t. xs ++ t) (rw (csi-none 7 r refl, strip) refl))))

strip-render : (ps : List Piece) → All IsWellFormed ps → strip csi 0 (render ps) ≡ with_titles ps
unfolding strip render with_titles
strip-render [] w = refl
strip-render (unit c ∷ ps) (e, w) =
    rw (csi-none c (render ps) (escape_control c e), strip) (ap (λ r. c ∷ r) (strip-render ps w))
strip-render (sequence xs c ∷ ps) ((p, h), w) =
    strip-sequence xs c (render ps) p h ∙ strip-render ps w
strip-render (title xs ∷ ps) (p, w) =
    strip_title xs (render ps) p ∙ ap (λ r. 27 ∷ b']' ∷ (xs ++ 7 ∷ r)) (strip-render ps w)

bell_control : (c : ℕ) → is_control c ≡ false → (c == 7) ≡ false
unfolding is_control
bell_control c e = ground arith

osc_end_title :
    (xs : Text) (n : ℕ) (r : Text)
    → IsPlain xs
    → osc_end n (xs ++ 7 ∷ r) ≡ some (suc (n + length xs))
unfolding osc_end
osc_end_title [] n r p = ap some (omega arith)
osc_end_title (x ∷ xs) n r (e, p) =
    rw (bell_control x e, escape_control x e) (osc_end_title xs (n + 1) r p ∙ ap some (omega arith))

strip-title : (xs r : Text) → IsPlain xs → strip osc 0 (27 ∷ b']' ∷ (xs ++ 7 ∷ r)) ≡ strip osc 0 r
unfolding strip osc
strip-title xs r p =
    let ends : osc_end 1 (xs ++ 7 ∷ r) ≡ some (suc (suc (length xs))) =
      osc_end_title xs 1 r p ∙ ap some (omega arith) in
    rw (ends, strip) (strip_over osc xs 7 r)

strip-with_titles :
    (ps : List Piece) → All IsWellFormed ps → strip osc 0 (with_titles ps) ≡ units ps
unfolding strip with_titles units
strip-with_titles [] w = refl
strip-with_titles (unit c ∷ ps) (e, w) =
    rw (osc-none c (with_titles ps) (escape_control c e), strip)
      (ap (λ r. c ∷ r) (strip-with_titles ps w))
strip-with_titles (sequence xs c ∷ ps) (p, w) = strip-with_titles ps w
strip-with_titles (title xs ∷ ps) (p, w) =
    strip-title xs (with_titles ps) p ∙ strip-with_titles ps w

units-IsPlain : (ps : List Piece) → All IsWellFormed ps → IsPlain (units ps)
unfolding units
units-IsPlain [] w = tt
units-IsPlain (unit c ∷ ps) (e, w) = (e, units-IsPlain ps w)
units-IsPlain (sequence xs c ∷ ps) (p, w) = units-IsPlain ps w
units-IsPlain (title xs ∷ ps) (p, w) = units-IsPlain ps w

-- A message of at most 16384 units of plain text, with terminal sequences `ESC [ parameters letter`
-- and `ESC ] title BEL` of a plain title anywhere between them, is sanitized to exactly its plain
-- text.
pub sanitize_message-units :
    (ps : List Piece)
    → All IsWellFormed ps
    → length (units ps) ≤ 16384
    → sanitize_message (render ps) ≡ units ps
unfolding sanitize_message
sanitize_message-units ps w h =
    ap cut (
      cleaned-osc (render ps) (units ps)
        (ap (strip osc 0) (strip-render ps w) ∙ strip-with_titles ps w) (units-IsPlain ps w))
    ∙ cut_short (units ps) h
