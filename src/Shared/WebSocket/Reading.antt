-- ===== src/Shared/WebSocket/Reading.antt =====
-- What `parseFrame` of src/shared/websocket-server.ts makes of the frames that a client writes.
use agentic_collab.Common.{
  ◌≡◌, refl, ap, ◌∙◌, ℕ, zero, suc, ◌+◌, ◌%◌, ◌^◌, ◌<◌, [], ◌∷◌, ◌++◌, arith, length, length-append,
  Text, bit_xor, bit_xor_twice, bit_and-127, Bool-cases, some, inl, inr, ltb, if◌then◌else◌,
}
use agentic_collab.Shared.WebSocket.Frames.{
  byte_at, read_be, write_be, payload_from, payload_extent,
}
use agentic_collab.Shared.WebSocket.Bytes.{
  byte_at-skip, byte_at-append, read_be_bytes, length-write_be, read_be-write_be,
  payload_from_bytes,
}

-- RFC 6455 section 5.3: byte `i` of the payload is masked with byte `i` modulo 4 of the key.
unfoldable pub masked : Text → ℕ → Text → Text
masked key i [] = []
masked key i (b ∷ p) = bit_xor b (byte_at key (i % 4)) ∷ masked key (suc i) p

-- Section 5.2: the mask bit and the length, which the next 2 or 8 bytes hold where it is too long.
unfoldable pub client_length : ℕ → Text
client_length n =
    if ltb n 126
    then (128 + n) ∷ []
    else if ltb n 65536
    then 254 ∷ write_be 2 n
    else 255 ∷ write_be 8 n

abbrev pub mask_key : ℕ → ℕ → ℕ → ℕ → Text
mask_key a b c d = a ∷ b ∷ c ∷ d ∷ []

-- A client's frame: its first byte, the length, the key and the masked payload.
unfoldable pub client_frame : ℕ → Text → Text → Text
client_frame first key payload =
    (first ∷ client_length (length payload)) ++ (key ++ masked key 0 payload)

pub length-masked : (key : Text) (i : ℕ) (p : Text) → length (masked key i p) ≡ length p
unfolding masked
length-masked key i [] = refl
length-masked key i (b ∷ p) = ap (λ n. suc n) (length-masked key (suc i) p)

byte_at-masked :
    (key : Text) (i : ℕ) (p : Text) (j : ℕ)
    → j < length p
    → byte_at (masked key i p) j ≡ bit_xor (byte_at p j) (byte_at key ((i + j) % 4))
unfolding masked byte_at
byte_at-masked key i [] j h = absurd (omega arith)
byte_at-masked key i (b ∷ p) zero h = let e : i + 0 ≡ i = omega arith in rw e refl
byte_at-masked key i (b ∷ p) (suc j) h =
    let e : i + suc j ≡ suc i + j = omega arith in
    rw e (byte_at-masked key (suc i) p j (omega arith))

module _ (pre key p rest : Text) (four : length key ≡ 4) where
  abbrev pub whole : Text
  whole = pre ++ (key ++ (masked key 0 p ++ rest))

  byte_at_key : (j : ℕ) → byte_at whole (length pre + j % 4) ≡ byte_at key (j % 4)
  byte_at_key j =
      byte_at-skip pre (key ++ (masked key 0 p ++ rest)) (j % 4)
      ∙ byte_at-append key (masked key 0 p ++ rest) (j % 4) (omega (arith, four))

  byte_at_payload :
      (j : ℕ)
      → j < length p
      → byte_at whole (length pre + 4 + (0 + j)) ≡ bit_xor (byte_at p j) (byte_at key ((0 + j) % 4))
  byte_at_payload j l =
      ap (λ n. byte_at whole n) (omega (arith, four))
      ∙ byte_at-skip pre (key ++ (masked key 0 p ++ rest)) (length key + j)
      ∙ byte_at-skip key (masked key 0 p ++ rest) j
      ∙ byte_at-append (masked key 0 p) rest j (omega (arith, length-masked key 0 p))
      ∙ byte_at-masked key 0 p j l

  pub unmasked : payload_from whole (length pre) 0 (length p) ≡ p
  unmasked = payload_from_bytes p whole (length pre) 0 (λ j l.
      rw (byte_at_payload j l, byte_at_key (0 + j))
        (bit_xor_twice (byte_at p j) (byte_at key ((0 + j) % 4))))

extent_second : (first second : ℕ) (t : Text) → byte_at (first ∷ second ∷ t) 1 ≡ second
unfolding byte_at
extent_second first second t = refl

-- The number after the first two bytes.
read_be_header :
    (first second k n : ℕ) (t : Text)
    → n < 256 ^ k
    → read_be (first ∷ second ∷ (write_be k n ++ t)) 2 k ≡ n
read_be_header first second k n t h =
    read_be_bytes k (first ∷ second ∷ (write_be k n ++ t)) 2 (write_be k n) 0 (λ j l.
      byte_at-skip (first ∷ second ∷ []) (write_be k n ++ t) j
      ∙ byte_at-append (write_be k n) t j (omega (arith, length-write_be k n))
      ∙ ap (λ i. byte_at (write_be k n) i) (omega arith))
    ∙ read_be-write_be k n h

-- The extent that a header gives, for each of its three forms.
extent_short :
    (first n : ℕ) (t : Text) → n < 126 → payload_extent (first ∷ (128 + n) ∷ t) ≡ some (n, 2)
unfolding payload_extent byte_at
extent_short first n t h = ground (arith, bit_and-127 (128 + n))

extent_16 :
    (first n : ℕ) (t : Text)
    → n < 65536
    → payload_extent (first ∷ 254 ∷ (write_be 2 n ++ t)) ≡ some (n, 4)
unfolding payload_extent
extent_16 first n t h = ground (
  arith,
  extent_second first 254 (write_be 2 n ++ t),
  bit_and-127 254,
  length-append (write_be 2 n) t,
  length-write_be 2 n,
  read_be_header first 254 2 n t (omega arith),
)

extent_64 :
    (first n : ℕ) (t : Text)
    → n < 18446744073709551616
    → payload_extent (first ∷ 255 ∷ (write_be 8 n ++ t)) ≡ some (n, 10)
unfolding payload_extent
extent_64 first n t h = ground (
  arith,
  extent_second first 255 (write_be 8 n ++ t),
  bit_and-127 255,
  length-append (write_be 8 n) t,
  length-write_be 8 n,
  read_be_header first 255 8 n t (omega arith),
)

pub extent-client :
    (first n : ℕ) (t : Text)
    → n < 18446744073709551616
    → payload_extent ((first ∷ client_length n) ++ t) ≡ some (n, length (first ∷ client_length n))
unfolding client_length
extent-client first n t h = elim (Bool-cases (ltb n 126)) [
  | inl e ↦ rw e (extent_short first n t (ground arith))
  | inr e ↦ elim (Bool-cases (ltb n 65536)) [
    | inl f ↦ rw (e, f, length-write_be 2 n) (extent_16 first n t (ground arith))
    | inr f ↦ rw (e, f, length-write_be 8 n) (extent_64 first n t h)
  ]
]
