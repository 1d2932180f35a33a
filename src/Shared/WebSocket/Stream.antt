-- ===== src/Shared/WebSocket/Stream.antt =====
-- src/shared/websocket-server.ts: the data handler of a connection, which splits the bytes that
-- arrive into frames.
use agentic_collab.Common.{
  ℕ, zero, suc, Option, none, some, List, [], ◌∷◌, ◌++◌, ltb, if◌then◌else◌, length, Text,
}
use agentic_collab.Shared.WebSocket.Frames.{Frame, parse_frame, subarray}
use agentic_collab.Shared.WebSocket.Server.{
  Client, ClientOutcome, also, remove_client, handle_frame, max_frame_bytes,
}

abbrev pub set_buffer : Text → Client → Client
set_buffer b c = record c { buffer = b }

-- The test of the `while` and the parse.
unfoldable pub next_frame : Text → Option Frame
next_frame buffer = if ltb (length buffer) 2 then none else parse_frame buffer

module _ (inflate : Text → Option Text) (utf8 : Text → Text) where
  -- A round of the `while` loop, with the rounds that follow.
  unfoldable pub drain_round : (Client → ClientOutcome) → Client → Option Frame → ClientOutcome
  drain_round loop c none = (c, [])
  drain_round loop c (some f) =
      also (handle_frame inflate utf8 f (set_buffer (subarray f.total_length c.buffer) c)) loop

  -- The loop. Each round takes a byte at least, so the buffer's length is fuel enough.
  unfoldable pub drain_loop : ℕ → Client → ClientOutcome
  drain_loop zero c = (c, [])
  drain_loop (suc n) c = drain_round (drain_loop n) c (next_frame c.buffer)

  unfoldable pub drain_buffer : Client → ClientOutcome
  drain_buffer c =
      if ltb max_frame_bytes (length c.buffer)
      then remove_client c
      else drain_loop (length c.buffer) c

  -- The handler of `data`; a destroyed socket has no more of it.
  unfoldable pub on_data : Text → Client → ClientOutcome
  on_data chunk c = if c.destroyed then (c, []) else drain_buffer (set_buffer (c.buffer ++ chunk) c)

  unfoldable pub feed : List Text → Client → ClientOutcome
  feed [] c = (c, [])
  feed (x ∷ xs) c = also (on_data x c) (feed xs)
