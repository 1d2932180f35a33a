-- ===== src/Shared/WebSocket/Bytes.antt =====
-- Reading a buffer of src/shared/websocket-server.ts by position.
use agentic_collab.Common.{
  ◌≡◌, refl, ap₂, ℕ, zero, suc, ◌+◌, ◌/◌, ◌%◌, ◌^◌, ◌≤◌, ◌<◌, [], ◌∷◌, ◌++◌, arith, length,
  length-append, Text, bit_xor,
}
use agentic_collab.Shared.WebSocket.Frames.{byte_at, subarray, read_be, write_be, payload_from}

pub byte_at-skip : (pre xs : Text) (j : ℕ) → byte_at (pre ++ xs) (length pre + j) ≡ byte_at xs j
unfolding byte_at
byte_at-skip [] xs j = ground arith
byte_at-skip (b ∷ pre) xs j = ground (arith, byte_at-skip pre xs j)

pub byte_at-append : (xs ys : Text) (j : ℕ) → j < length xs → byte_at (xs ++ ys) j ≡ byte_at xs j
unfolding byte_at
byte_at-append [] ys j h = absurd (omega arith)
byte_at-append (x ∷ xs) ys zero h = refl
byte_at-append (x ∷ xs) ys (suc j) h = byte_at-append xs ys j (omega arith)

pub subarray-append : (xs ys : Text) → subarray (length xs) (xs ++ ys) ≡ ys
unfolding subarray
subarray-append [] ys = refl
subarray-append (x ∷ xs) ys = subarray-append xs ys

pub length-subarray : (n : ℕ) (xs : Text) → n ≤ length xs → length (subarray n xs) + n ≡ length xs
unfolding subarray
length-subarray zero xs h = omega arith
length-subarray (suc n) [] h = absurd (omega arith)
length-subarray (suc n) (x ∷ xs) h = omega (arith, length-subarray n xs (omega arith))

pub subarray-append_le :
    (n : ℕ) (xs ys : Text) → n ≤ length xs → subarray n (xs ++ ys) ≡ subarray n xs ++ ys
unfolding subarray
subarray-append_le zero xs ys h = refl
subarray-append_le (suc n) [] ys h = absurd (omega arith)
subarray-append_le (suc n) (x ∷ xs) ys h = subarray-append_le n xs ys (omega arith)

-- A number is read from the bytes that stand at its place.
pub read_be_bytes :
    (n : ℕ) (xs : Text) (p : ℕ) (ys : Text) (q : ℕ)
    → ((j : ℕ) → j < n → byte_at xs (p + j) ≡ byte_at ys (q + j))
    → read_be xs p n ≡ read_be ys q n
unfolding read_be
read_be_bytes zero xs p ys q h = refl
read_be_bytes (suc n) xs p ys q h =
    omega (arith, read_be_bytes n xs p ys q (λ j l. h j (omega arith)), h n (omega arith))

pub length-write_be : (n v : ℕ) → length (write_be n v) ≡ n
unfolding write_be
length-write_be zero v = refl
length-write_be (suc n) v =
    omega
      (arith, length-append (write_be n (v / 256)) ((v % 256) ∷ []), length-write_be n (v / 256))

byte_at_last : (xs : Text) (n v : ℕ) → length xs ≡ n → byte_at (xs ++ v ∷ []) (0 + n) ≡ v
unfolding byte_at
byte_at_last [] n v h = let e : 0 + n ≡ 0 = omega (arith, h) in rw e refl
byte_at_last (x ∷ xs) zero v h = absurd (omega (arith, h))
byte_at_last (x ∷ xs) (suc n) v h = ground (arith, byte_at_last xs n v (omega (arith, h)))

pub read_be-write_be : (n v : ℕ) → v < 256 ^ n → read_be (write_be n v) 0 n ≡ v
unfolding read_be write_be
read_be-write_be zero v h = omega arith
read_be-write_be (suc n) v h = omega (
  arith,
  read_be-write_be n (v / 256) (omega arith),
  byte_at_last (write_be n (v / 256)) n (v % 256) (length-write_be n (v / 256)),
  read_be_bytes n (write_be n (v / 256) ++ (v % 256) ∷ []) 0 (write_be n (v / 256)) 0 (λ j l.
      byte_at-append (write_be n (v / 256)) ((v % 256) ∷ []) (0 + j)
        (omega (arith, length-write_be n (v / 256)))),
)

unmasked_head :
    (b : ℕ) (p buffer : Text) (offset i : ℕ)
    → bit_xor (byte_at buffer (offset + 4 + (i + 0))) (byte_at buffer (offset + (i + 0) % 4)) ≡ b
    → bit_xor (byte_at buffer (offset + 4 + i)) (byte_at buffer (offset + i % 4)) ≡ b
unmasked_head b p buffer offset i h = let e : i + 0 ≡ i = omega arith in rw e at h

unmasked_tail :
    (p buffer : Text) (offset i j : ℕ) {v : ℕ}
    → bit_xor
        (byte_at buffer (offset + 4 + (i + suc j)))
        (byte_at buffer (offset + (i + suc j) % 4))
      ≡ v
    → bit_xor
        (byte_at buffer (offset + 4 + (suc i + j)))
        (byte_at buffer (offset + (suc i + j) % 4))
      ≡ v
unmasked_tail p buffer offset i j h = let e : suc i + j ≡ i + suc j = omega arith in rw e h

-- The loop yields `p` where the buffer holds the bytes of `p`, masked.
pub payload_from_bytes :
    (p buffer : Text) (offset i : ℕ)
    → ((j : ℕ)
        → j < length p
        → bit_xor (byte_at buffer (offset + 4 + (i + j))) (byte_at buffer (offset + (i + j) % 4))
          ≡ byte_at p j)
    → payload_from buffer offset i (length p) ≡ p
unfolding payload_from byte_at
payload_from_bytes [] buffer offset i h = refl
payload_from_bytes (b ∷ p) buffer offset i h =
    ap₂ (λ (x : ℕ) (xs : Text). x ∷ xs) (unmasked_head b p buffer offset i (h 0 (omega arith)))
      (payload_from_bytes p buffer offset (suc i)
        (λ j l. unmasked_tail p buffer offset i j (h (suc j) (omega arith))))

-- The loop reads the bytes from the mask on, and no other.
pub payload_from_same :
    (n : ℕ) (xs ys : Text) (offset i : ℕ)
    → ((j : ℕ) → j < offset + 4 + i + n → byte_at xs j ≡ byte_at ys j)
    → payload_from xs offset i n ≡ payload_from ys offset i n
unfolding payload_from
payload_from_same zero xs ys offset i h = refl
payload_from_same (suc n) xs ys offset i h =
    rw
      (
        h (offset + 4 + i) (omega arith),
        h (offset + i % 4) (omega arith),
        payload_from_same n xs ys offset (suc i) (λ j l. h j (omega arith)),
      )
      refl
