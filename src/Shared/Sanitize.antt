-- ===== src/Shared/Sanitize.antt =====
-- src/shared/sanitize.ts: what `sanitizeMessage` leaves of a message, over its code units. A regular
-- expression is a function that tells how many units a match takes after its first one.
pub mod Cleaning
pub mod Sequences
use agentic_collab.Common.{
  ℕ, zero, suc, ◌+◌, ◌*◌, Bool, true, false, not, ◌&&◌, ◌||◌, Option, none, some, List, [], ◌∷◌,
  ltb, leb, ◌==◌, if◌then◌else◌, Text, select, any, length,
}

abbrev pub max_message_length : ℕ
max_message_length = 16 * 1024

abbrev pub escape : ℕ
escape = 27

abbrev pub bell : ℕ
bell = 7

-- What follows an ESC and the given unit at the start of a text.
abbrev pub opening : ℕ → Text → Option Text
opening b [] = none
opening b (c ∷ []) = none
opening b (c ∷ d ∷ cs) = if c == escape && d == b then some cs else none

-- `[0-9;]`
abbrev pub is_parameter : ℕ → Bool
is_parameter c = (leb b'0' c && leb c b'9') || c == b';'

-- `[A-Za-z]`
abbrev pub is_letter : ℕ → Bool
is_letter c = (leb b'A' c && leb c b'Z') || (leb b'a' c && leb c b'z')

unfoldable pub csi_end : ℕ → Text → Option ℕ
csi_end n [] = none
csi_end n (c ∷ cs) =
    let rest = csi_end (n + 1) cs in
    if is_parameter c then rest else if is_letter c then some (n + 1) else none

-- `/\x1B\[[0-9;]*[A-Za-z]/`
unfoldable pub csi : Text → Option ℕ
csi t = elim (opening b'[' t) [ none ↦ none | some cs ↦ csi_end 1 cs ]

abbrev pub starts_with : ℕ → Text → Bool
starts_with b [] = false
starts_with b (c ∷ cs) = c == b

unfoldable pub osc_end : ℕ → Text → Option ℕ
osc_end n [] = none
osc_end n (c ∷ cs) =
    let rest = osc_end (n + 1) cs in
    if c == bell
    then some (n + 1)
    else if c == escape && starts_with 92 cs
    then some (n + 2)
    else rest

-- `/\x1B\].*?(?:\x07|\x1B\\)/`
unfoldable pub osc : Text → Option ℕ
osc t = elim (opening b']' t) [ none ↦ none | some cs ↦ osc_end 1 cs ]

-- `/\x1B\][^\x07]*$/`
unfoldable pub truncated_osc : Text → Option ℕ
truncated_osc t = elim (opening b']' t) [
  | none ↦ none
  | some cs ↦ if any (λ c. c == bell) cs then none else some (1 + length cs)
]

-- `/\x1B[^[\]]/`
unfoldable pub other_escape : Text → Option ℕ
other_escape [] = none
other_escape (c ∷ []) = none
other_escape (c ∷ d ∷ cs) = if c == escape && not (d == b'[' || d == b']') then some 1 else none

-- `.replace(/…/g, '')`, in a match with so many units to go.
unfoldable pub strip : (Text → Option ℕ) → ℕ → Text → Text
strip match_at n [] = []
strip match_at (suc n) (c ∷ cs) = strip match_at n cs
strip match_at zero (c ∷ cs) = elim (match_at (c ∷ cs)) [
  | none ↦ c ∷ strip match_at 0 cs
  | some n ↦ strip match_at n cs
]

-- `[\x00-\x08\x0B\x0C\x0E-\x1F\x7F-\x9F]`
unfoldable pub is_control : ℕ → Bool
is_control c =
    leb c 8 || (c == 11 || (c == 12 || ((leb 14 c && leb c 31) || (leb 127 c && leb c 159))))

abbrev pub take : ℕ → Text → Text
take zero xs = []
take (suc n) [] = []
take (suc n) (x ∷ xs) = x ∷ take n xs

unfoldable pub cleaned : Text → Text
cleaned t =
    select (λ c. not (is_control c))
      (strip other_escape 0 (strip truncated_osc 0 (strip osc 0 (strip csi 0 t))))

unfoldable pub sanitize_message : Text → Text
sanitize_message t =
    if ltb max_message_length (length (cleaned t))
    then take max_message_length (cleaned t)
    else cleaned t
