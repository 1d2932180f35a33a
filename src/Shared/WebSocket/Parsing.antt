-- ===== src/Shared/WebSocket/Parsing.antt =====
-- `parseFrame` of src/shared/websocket-server.ts and bytes that have not arrived yet.
use agentic_collab.Common.{
  ◌≡◌, ℕ, ◌+◌, ◌≤◌, ◌<◌, ◌++◌, arith, length, length-append, Text, Option-cases, Bool-cases,
  bit_and, false, Option, some, none, inl, inr, ◌==◌, ltb, none_ne_some,
}
use agentic_collab.Shared.WebSocket.Frames.{
  Frame, byte_at, read_be, payload_from, payload_extent, masked_frame, frame_of_extent, parse_frame,
}
use agentic_collab.Shared.WebSocket.Bytes.{byte_at-append, read_be_bytes, payload_from_same}

masked_frame_fits :
    (xs : Text) (n offset : ℕ) (f : Frame)
    → masked_frame xs (n, offset) ≡ some f
    → (offset + 4 + n ≤ length xs) × (f.total_length ≡ offset + 4 + n)
unfolding masked_frame
masked_frame_fits xs n offset f p = ground arith

module _ (xs ys : Text) where
  same_byte : (j : ℕ) → j < length xs → byte_at (xs ++ ys) j ≡ byte_at xs j
  same_byte j h = byte_at-append xs ys j h

  read_be-append : (n : ℕ) → 2 + n ≤ length xs → read_be (xs ++ ys) 2 n ≡ read_be xs 2 n
  read_be-append n h = read_be_bytes n (xs ++ ys) 2 xs 2 (λ j l. same_byte (2 + j) (omega arith))

  payload_extent-append :
      (e : ℕ × ℕ) → 2 ≤ length xs → payload_extent xs ≡ some e → payload_extent (xs ++ ys) ≡ some e
  unfolding payload_extent
  payload_extent-append e h p =
      rw (same_byte 1 (omega arith)) (elim (Bool-cases (bit_and (byte_at xs 1) 127 == 126)) [
        | inl a ↦ ground (arith, read_be-append 2, length-append xs ys)
        | inr a ↦ ground (arith, read_be-append 8, length-append xs ys)
      ])

  payload_from-append :
      (n offset : ℕ)
      → offset + 4 + n ≤ length xs
      → payload_from (xs ++ ys) offset 0 n ≡ payload_from xs offset 0 n
  payload_from-append n offset h =
      payload_from_same n (xs ++ ys) xs offset 0 (λ j l. same_byte j (omega arith))

  masked_frame-append :
      (n offset : ℕ) (f : Frame)
      → 2 ≤ length xs
      → masked_frame xs (n, offset) ≡ some f
      → masked_frame (xs ++ ys) (n, offset) ≡ some f
  unfolding masked_frame
  masked_frame-append n offset f h p =
      let fits : offset + 4 + n ≤ length xs = (masked_frame_fits xs n offset f p).0 in
      let t : ltb (length xs) (offset + 4 + n) ≡ false = ground arith in
      let u : ltb (length (xs ++ ys)) (offset + 4 + n) ≡ false =
        ground (arith, length-append xs ys) in
      rw
        (same_byte 1 (omega arith), same_byte 0 (omega arith), u, payload_from-append n offset fits)
        (rw t at p)

  frame_of_extent-append :
      (f : Frame)
      → 2 ≤ length xs
      → frame_of_extent xs (payload_extent xs) ≡ some f
      → frame_of_extent (xs ++ ys) (payload_extent (xs ++ ys)) ≡ some f
  unfolding frame_of_extent
  frame_of_extent-append f h p = elim (Option-cases (payload_extent xs)) [
    | inl e ↦ absurd (none_ne_some (rw e at p))
    | inr ((n, offset), e) ↦
        rw (payload_extent-append (n, offset) h e) (masked_frame-append n offset f h (rw e at p))
  ]

  -- Bytes that arrive later change nothing about a frame that is there.
  pub parse_frame-append : (f : Frame) → parse_frame xs ≡ some f → parse_frame (xs ++ ys) ≡ some f
  unfolding parse_frame
  parse_frame-append f p = elim (Bool-cases (ltb (length xs) 2)) [
    | inl t ↦ absurd (none_ne_some (rw t at p))
    | inr t ↦
        let u : ltb (length (xs ++ ys)) 2 ≡ false = ground (arith, length-append xs ys) in
        rw u (frame_of_extent-append f (ground arith) (rw t at p))
  ]

frame_of_extent_fits :
    (xs : Text) (o : Option (ℕ × ℕ)) (f : Frame)
    → frame_of_extent xs o ≡ some f
    → f.total_length ≤ length xs
unfolding frame_of_extent
frame_of_extent_fits xs none f p = absurd (none_ne_some p)
frame_of_extent_fits xs (some (n, offset)) f p =
    let q = masked_frame_fits xs n offset f p in omega (arith, q.0, q.1)

-- A frame ends within the buffer.
pub parse_frame_fits :
    (xs : Text) (f : Frame) → parse_frame xs ≡ some f → f.total_length ≤ length xs
unfolding parse_frame
parse_frame_fits xs f p = elim (Bool-cases (ltb (length xs) 2)) [
  | inl t ↦ absurd (none_ne_some (rw t at p))
  | inr t ↦ frame_of_extent_fits xs (payload_extent xs) f (rw t at p)
]
