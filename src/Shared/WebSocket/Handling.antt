-- ===== src/Shared/WebSocket/Handling.antt =====
-- src/shared/websocket-server.ts: handling a frame does not touch the connection's buffer, and only
-- a close frame destroys its socket.
use agentic_collab.Common.{
  ◌≡◌, ◌≢◌, refl, ap, [], ◌++◌, arith, Text, Bool-cases, true, false, Option, some, none, inl, inr,
  ◌==◌,
}
use agentic_collab.Shared.WebSocket.Frames.{
  Frame, opcode_text, opcode_ping, opcode_pong, opcode_close, encode_frame,
}
use agentic_collab.Shared.WebSocket.Server.{
  Client, ClientOutcome, also, set_alive, destroy, write_frame, remove_client, send_pong,
  send_close, handle_text, handle_frame,
}
use agentic_collab.Shared.WebSocket.Stream.{set_buffer}

-- An outcome whose client has another buffer.
abbrev pub with_buffer : Text → ClientOutcome → ClientOutcome
with_buffer b r = (set_buffer b r.0, r.1)

module _ (b : Text) where
  write_frame-set_buffer :
      (frame : Text) (c : Client)
      → write_frame frame (set_buffer b c) ≡ with_buffer b (write_frame frame c)
  unfolding write_frame
  write_frame-set_buffer frame c = elim (Bool-cases c.writable) [
    | inl e ↦ rw e refl
    | inr e ↦ rw e refl
  ]

  remove_client-set_buffer :
      (c : Client) → remove_client (set_buffer b c) ≡ with_buffer b (remove_client c)
  unfolding remove_client destroy
  remove_client-set_buffer c = elim (Bool-cases c.listed) [ inl e ↦ rw e refl | inr e ↦ rw e refl ]

  also-set_buffer :
      (r : ClientOutcome) (f : Client → ClientOutcome)
      → ((c : Client) → f (set_buffer b c) ≡ with_buffer b (f c))
      → also (with_buffer b r) f ≡ with_buffer b (also r f)
  also-set_buffer r f h = ap (λ (s : ClientOutcome). (s.0, r.1 ++ s.1)) (h r.0)

  module _ (inflate : Text → Option Text) (utf8 : Text → Text) where
    handle_text-set_buffer :
        (o : Option Text) (c : Client)
        → handle_text inflate utf8 (set_buffer b c) o ≡ with_buffer b (handle_text inflate utf8 c o)
    unfolding handle_text
    handle_text-set_buffer none c = refl
    handle_text-set_buffer (some t) c = refl

    pub handle_frame-set_buffer :
        (f : Frame) (c : Client)
        → handle_frame inflate utf8 f (set_buffer b c)
          ≡ with_buffer b (handle_frame inflate utf8 f c)
    unfolding handle_frame send_pong send_close
    handle_frame-set_buffer f c = elim (Bool-cases (f.opcode == opcode_text)) [
      | inl e ↦ rw e (handle_text-set_buffer _ (set_alive true c))
      | inr e ↦ elim (Bool-cases (f.opcode == opcode_ping)) [
        | inl g ↦ rw (e, g) (write_frame-set_buffer _ (set_alive true c))
        | inr g ↦ elim (Bool-cases (f.opcode == opcode_pong)) [
          | inl h ↦ rw (e, g, h) refl
          | inr h ↦ elim (Bool-cases (f.opcode == opcode_close)) [
            | inl k ↦
                rw (e, g, h, k, write_frame-set_buffer (encode_frame opcode_close [] false) c)
                  (also-set_buffer (write_frame (encode_frame opcode_close [] false) c)
                    remove_client remove_client-set_buffer)
            | inr k ↦ rw (e, g, h, k) refl
          ]
        ]
      ]
    ]

write_frame_open : (frame : Text) (c : Client) → (write_frame frame c).0.destroyed ≡ c.destroyed
unfolding write_frame
write_frame_open frame c = elim (Bool-cases c.writable) [ inl e ↦ rw e refl | inr e ↦ rw e refl ]

module _ (inflate : Text → Option Text) (utf8 : Text → Text) where
  handle_text_open :
      (o : Option Text) (c : Client) → (handle_text inflate utf8 c o).0.destroyed ≡ c.destroyed
  unfolding handle_text
  handle_text_open none c = refl
  handle_text_open (some t) c = refl

  pub handle_frame_open :
      (f : Frame) (c : Client)
      → f.opcode ≢ opcode_close
      → (handle_frame inflate utf8 f c).0.destroyed ≡ c.destroyed
  unfolding handle_frame send_pong
  handle_frame_open f c k = elim (Bool-cases (f.opcode == opcode_text)) [
    | inl e ↦ rw e (handle_text_open _ (set_alive true c))
    | inr e ↦ elim (Bool-cases (f.opcode == opcode_ping)) [
      | inl g ↦ rw (e, g) (write_frame_open _ (set_alive true c))
      | inr g ↦ elim (Bool-cases (f.opcode == opcode_pong)) [
        | inl h ↦ rw (e, g, h) refl
        | inr h ↦ let n : (f.opcode == opcode_close) ≡ false = ground arith in rw (e, g, h, n) refl
      ]
    ]
  ]
