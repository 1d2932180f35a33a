-- ===== src/Shared/WebSocket/RoundTrip.antt =====
-- A frame that a client writes, followed by anything, is read back by `parseFrame` of
-- src/shared/websocket-server.ts.
use agentic_collab.Common.{
  ◌≡◌, refl, sym, ℕ, ◌+◌, ◌<◌, ◌∷◌, ◌++◌, arith, length, length-append, append_assoc, Text, bit_and,
  bit_and-128, Bool-cases, false, not, some, inl, inr, ◌==◌, ltb,
}
use agentic_collab.Shared.WebSocket.Frames.{
  Frame, byte_at, masked_frame, frame_of_extent, parse_frame,
}
use agentic_collab.Shared.WebSocket.Reading.{
  masked, client_length, client_frame, length-masked, whole, unmasked, extent-client,
}

client_second :
    (first n : ℕ) (t : Text)
    → (bit_and (byte_at ((first ∷ client_length n) ++ t) 1) 128 == 0) ≡ false
unfolding client_length byte_at
client_second first n t = elim (Bool-cases (ltb n 126)) [
  | inl e ↦ rw e (ground (arith, bit_and-128 (128 + n)))
  | inr e ↦ elim (Bool-cases (ltb n 65536)) [
    | inl f ↦ rw (e, f) (ground (arith, bit_and-128 254))
    | inr f ↦ rw (e, f) (ground (arith, bit_and-128 255))
  ]
]

client_first : (first n : ℕ) (t : Text) → byte_at ((first ∷ client_length n) ++ t) 0 ≡ first
unfolding byte_at
client_first first n t = refl

-- The frame that a client means.
abbrev pub meant : ℕ → Text → ℕ → Frame
meant first payload total = record {
  opcode = bit_and first 15;
  payload = payload;
  total_length = total;
  compressed = not (bit_and first 64 == 0);
}

length-client_frame :
    (first : ℕ) (key p : Text)
    → length (client_frame first key p)
      ≡ length (first ∷ client_length (length p)) + length key + length p
unfolding client_frame
length-client_frame first key p = omega (
  arith,
  length-append (first ∷ client_length (length p)) (key ++ masked key 0 p),
  length-append key (masked key 0 p),
  length-masked key 0 p,
)

module _ (first : ℕ) (key p rest : Text) (four : length key ≡ 4) where
  abbrev header : Text
  header = first ∷ client_length (length p)

  header_fits : ltb (length (whole header key p rest four)) (length header + 4 + length p) ≡ false
  header_fits = ground (
    arith,
    length-append header (key ++ (masked key 0 p ++ rest)),
    length-append key (masked key 0 p ++ rest),
    length-append (masked key 0 p) rest,
    length-masked key 0 p,
  )

  whole_two : ltb (length (whole header key p rest four)) 2 ≡ false
  whole_two = ground (arith, header_fits)

  masked_frame-client :
      masked_frame (whole header key p rest four) (length p, length header)
      ≡ some (meant first p (length header + 4 + length p))
  unfolding masked_frame
  masked_frame-client =
      rw
        (
          client_second first (length p) (key ++ (masked key 0 p ++ rest)),
          unmasked header key p rest four,
        )
        (rw (header_fits, client_first first (length p) (key ++ (masked key 0 p ++ rest))) refl)

  whole-client_frame : whole header key p rest four ≡ client_frame first key p ++ rest
  unfolding client_frame
  whole-client_frame = simp append_assoc refl

  parse_whole :
      length p < 18446744073709551616
      → parse_frame (whole header key p rest four)
        ≡ some (meant first p (length header + 4 + length p))
  unfolding parse_frame frame_of_extent
  parse_whole l =
      rw (whole_two, extent-client first (length p) (key ++ (masked key 0 p ++ rest)) l)
        masked_frame-client

  -- A masked frame of less than 2^64 bytes that a client writes by RFC 6455, with any bytes after it,
  -- is read back: its opcode and compression bit, its payload unmasked, and its length.
  pub parse_frame-client_frame :
      length p < 18446744073709551616
      → parse_frame (client_frame first key p ++ rest)
        ≡ some (meant first p (length (client_frame first key p)))
  parse_frame-client_frame l =
      rw (sym whole-client_frame, length-client_frame first key p, four) (parse_whole l)
