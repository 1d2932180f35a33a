-- ===== src/Shared/WebSocket/Frames.antt =====
-- src/shared/websocket-server.ts: the frames of RFC 6455, read from a buffer and written. A byte is
-- a number, a buffer a list of them; a read past the end, which the code never makes, is 0.
use agentic_collab.Common.{
  ℕ, zero, suc, ◌+◌, ◌*◌, ◌/◌, ◌%◌, Bool, not, Option, none, some, [], ◌∷◌, ◌++◌, ltb, ◌==◌,
  if◌then◌else◌, length, Text, bit_and, bit_or, bit_xor,
}

abbrev pub opcode_continuation : ℕ
opcode_continuation = 0

abbrev pub opcode_text : ℕ
opcode_text = 1

abbrev pub opcode_binary : ℕ
opcode_binary = 2

abbrev pub opcode_close : ℕ
opcode_close = 8

abbrev pub opcode_ping : ℕ
opcode_ping = 9

abbrev pub opcode_pong : ℕ
opcode_pong = 10

-- `buffer[i]`
unfoldable pub byte_at : Text → ℕ → ℕ
byte_at [] i = 0
byte_at (b ∷ bs) zero = b
byte_at (b ∷ bs) (suc i) = byte_at bs i

-- `buffer.subarray(n)`
unfoldable pub subarray : ℕ → Text → Text
subarray zero bs = bs
subarray (suc n) [] = []
subarray (suc n) (b ∷ bs) = subarray n bs

-- `readUInt16BE` and `readBigUInt64BE`: the number that `n` bytes from `pos` write, highest first.
unfoldable pub read_be : Text → ℕ → ℕ → ℕ
read_be buffer pos zero = 0
read_be buffer pos (suc n) = read_be buffer pos n * 256 + byte_at buffer (pos + n)

-- `writeUInt16BE` and `writeBigUInt64BE`, for a number that fits.
unfoldable pub write_be : ℕ → ℕ → Text
write_be zero v = []
write_be (suc n) v = write_be n (v / 256) ++ (v % 256) ∷ []

pub record Frame : Type 0 where
  pub opcode : ℕ
  pub payload : Text
  pub total_length : ℕ
  pub compressed : Bool

-- The payload's length and where the mask begins; none where the length is not all there yet.
-- `Number` rounds lengths over 2^53, which no buffer reaches.
unfoldable pub payload_extent : Text → Option (ℕ × ℕ)
payload_extent buffer =
    let short = bit_and (byte_at buffer 1) 127 in
    if short == 126
    then if ltb (length buffer) 4 then none else some (read_be buffer 2 2, 4)
    else if short == 127
    then if ltb (length buffer) 10 then none else some (read_be buffer 2 8, 10)
    else some (short, 2)

-- The loop that unmasks: `n` bytes from position `i` of the payload; the mask is at `offset`.
unfoldable pub payload_from : Text → ℕ → ℕ → ℕ → Text
payload_from buffer offset i zero = []
payload_from buffer offset i (suc n) =
    bit_xor (byte_at buffer (offset + 4 + i)) (byte_at buffer (offset + i % 4))
    ∷ payload_from buffer offset (suc i) n

unfoldable pub masked_frame : Text → ℕ × ℕ → Option Frame
masked_frame buffer (payload_length, offset) =
    if bit_and (byte_at buffer 1) 128 == 0
    then none
    else if ltb (length buffer) (offset + 4 + payload_length)
    then none
    else some record {
      opcode = bit_and (byte_at buffer 0) 15;
      payload = payload_from buffer offset 0 payload_length;
      total_length = offset + 4 + payload_length;
      compressed = not (bit_and (byte_at buffer 0) 64 == 0);
    }

unfoldable pub frame_of_extent : Text → Option (ℕ × ℕ) → Option Frame
frame_of_extent buffer none = none
frame_of_extent buffer (some e) = masked_frame buffer e

unfoldable pub parse_frame : Text → Option Frame
parse_frame buffer =
    if ltb (length buffer) 2 then none else frame_of_extent buffer (payload_extent buffer)

unfoldable pub header_first : ℕ → Bool → ℕ
header_first opcode rsv1 = bit_or (bit_or 128 (if rsv1 then 64 else 0)) opcode

unfoldable pub encode_header : ℕ → ℕ → Text
encode_header first_byte n =
    if ltb n 126
    then first_byte ∷ n ∷ []
    else if ltb n 65536
    then first_byte ∷ 126 ∷ write_be 2 n
    else first_byte ∷ 127 ∷ write_be 8 n

unfoldable pub encode_frame : ℕ → Text → Bool → Text
encode_frame opcode payload rsv1 =
    encode_header (header_first opcode rsv1) (length payload) ++ payload
