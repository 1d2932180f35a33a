-- ===== src/Shared/WebSocket/Deflate.antt =====
-- src/shared/ws-deflate.ts: permessage-deflate. zlib's raw deflate and inflate are parameters.
use agentic_collab.Common.{
  trim, ◌≡◌, refl, ap, ◌∙◌, ℕ, zero, suc, ◌+◌, ◌-◌, Bool, true, ◌&&◌, Option, none, some, List, [],
  ◌∷◌, ◌++◌, leb, ◌==◌, if◌then◌else◌, length, length-append, Text, codes, text_eq, any, arith,
}
use agentic_collab.Shared.WebSocket.Frames.{byte_at}
use agentic_collab.Shared.WebSocket.Bytes.{byte_at-skip}

abbrev pub tail : Text
tail = 0 ∷ 0 ∷ 255 ∷ 255 ∷ []

abbrev pub permessage_deflate : Text
permessage_deflate = codes "permessage-deflate"

abbrev pub response_header : Text
response_header = codes "permessage-deflate; server_no_context_takeover; client_no_context_takeover"

abbrev pub onto_first : ℕ → List Text → List Text
onto_first c [] = (c ∷ []) ∷ []
onto_first c (p ∷ ps) = (c ∷ p) ∷ ps

-- `s.split(sep)`, for a separator of one code unit.
unfoldable pub split : ℕ → Text → List Text
split sep [] = [] ∷ []
split sep (c ∷ cs) = let rest = split sep cs in if c == sep then [] ∷ rest else onto_first c rest

abbrev pub first_part : List Text → Text
first_part [] = []
first_part (p ∷ ps) = p

unfoldable pub offers_deflate : Text → Bool
offers_deflate offer = text_eq (trim (first_part (split b';' (trim offer)))) permessage_deflate

-- `negotiate`; an absent header is the empty text.
unfoldable pub negotiate : Text → Option Text
negotiate header =
    if length header == 0
    then none
    else if any offers_deflate (split b',' header)
    then some response_header
    else none

unfoldable pub ends_in_tail : Text → Bool
ends_in_tail xs =
    leb 4 (length xs)
    && (byte_at xs (length xs - 4) == 0)
    && (byte_at xs (length xs - 3) == 0)
    && (byte_at xs (length xs - 2) == 255)
    && (byte_at xs (length xs - 1) == 255)

-- `subarray(0, n)`
unfoldable pub prefix_of : ℕ → Text → Text
prefix_of zero xs = []
prefix_of (suc n) [] = []
prefix_of (suc n) (x ∷ xs) = x ∷ prefix_of n xs

unfoldable pub compress_frame : (Text → Text) → Text → Text
compress_frame deflate payload =
    let compressed = deflate payload in
    if ends_in_tail compressed then prefix_of (length compressed - 4) compressed else compressed

unfoldable pub decompress_frame : (Text → Option Text) → Text → Option Text
decompress_frame inflate payload = inflate (payload ++ tail)

prefix_of-append : (xs ys : Text) → prefix_of (length xs) (xs ++ ys) ≡ xs
unfolding prefix_of
prefix_of-append [] ys = refl
prefix_of-append (x ∷ xs) ys = ap (λ zs. x ∷ zs) (prefix_of-append xs ys)

byte_at_back :
    (xs ys : Text) (k j : ℕ)
    → length (xs ++ ys) ≡ length xs + k + j
    → byte_at (xs ++ ys) (length (xs ++ ys) - k) ≡ byte_at ys j
byte_at_back xs ys k j h = ap (λ n. byte_at (xs ++ ys) n) (omega (arith, h)) ∙ byte_at-skip xs ys j

ends_in_tail-append : (xs : Text) → ends_in_tail (xs ++ tail) ≡ true
unfolding ends_in_tail byte_at
ends_in_tail-append xs =
    let n : length (xs ++ tail) ≡ length xs + 4 = length-append xs tail in
    rw
      (
        byte_at_back xs tail 4 0 (omega (arith, n)),
        byte_at_back xs tail 3 1 (omega (arith, n)),
        byte_at_back xs tail 2 2 (omega (arith, n)),
        byte_at_back xs tail 1 3 (omega (arith, n)),
      )
      (ground (arith, n))

stripped : (xs : Text) → prefix_of (length (xs ++ tail) - 4) (xs ++ tail) ≡ xs
stripped xs =
    ap (λ n. prefix_of n (xs ++ tail)) (omega (arith, length-append xs tail))
    ∙ prefix_of-append xs tail

module _ (deflate : Text → Text) (inflate : Text → Option Text) where
  -- Where deflate ends its output with the empty block, which the code strips, and inflate undoes
  -- it, a compressed payload is read back.
  pub decompress_frame-compress_frame :
      (payload body : Text)
      → deflate payload ≡ body ++ tail
      → inflate (deflate payload) ≡ some payload
      → decompress_frame inflate (compress_frame deflate payload) ≡ some payload
  unfolding compress_frame decompress_frame
  decompress_frame-compress_frame payload body e h =
      rw (e, ends_in_tail-append body, stripped body) (rw e at h)
