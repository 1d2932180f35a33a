-- ===== src/Shared/WebSocket/Chunks.antt =====
-- src/shared/websocket-server.ts: the frames that the data handler finds do not depend on how the
-- bytes of a connection are cut into chunks.
use agentic_collab.Common.{
  ◌≡◌, refl, ap, sym, ◌∙◌, ℕ, ◌+◌, ◌≤◌, [], ◌∷◌, ◌++◌, arith, Text, Bool, false, Option, none, List,
  map, length, length-append, append_assoc, append_nil, All, ltb, none_ne_some, if◌then◌else◌,
}
use agentic_collab.Shared.WebSocket.Server.{
  Client, ClientOutcome, also, handle_frame, max_frame_bytes,
}
use agentic_collab.Shared.WebSocket.Stream.{
  set_buffer, next_frame, drain_loop, drain_buffer, on_data, feed,
}
use agentic_collab.Shared.WebSocket.Handling.{with_buffer}
use agentic_collab.Shared.WebSocket.Draining.{
  handle_all, handled, handle_all-set_buffer, handle-All_open, Drained, drain,
}
use agentic_collab.Shared.WebSocket.Sent.{
  Sent, wire, frame_of, join, IsSent, next_frame-bytes, empty_of_append, next_frame_empty,
}

module _ (inflate : Text → Option Text) (utf8 : Text → Text) (size : ℕ) where
  handled-append :
      (ms ns : List Sent) (c : Client)
      → handled inflate utf8 size (ms ++ ns) c
        ≡ also (handled inflate utf8 size ms c) (handled inflate utf8 size ns)
  unfolding handle_all
  handled-append [] ns c = refl
  handled-append (m ∷ ms) ns c =
      ap (λ (r : ClientOutcome). (r.0, (handle_frame inflate utf8 (frame_of m) c).1 ++ r.1))
        (handled-append ms ns (handle_frame inflate utf8 (frame_of m) c).0)
      ∙ ap
          (λ es. (
            (handled inflate utf8 size ns
                (handled inflate utf8 size ms (handle_frame inflate utf8 (frame_of m) c).0).0).0,
            es,
          ))
          (sym (
            append_assoc (handle_frame inflate utf8 (frame_of m) c).1
              (handled inflate utf8 size ms (handle_frame inflate utf8 (frame_of m) c).0).1
              (handled inflate utf8 size ns
                (handled inflate utf8 size ms (handle_frame inflate utf8 (frame_of m) c).0).0).1))

  -- A chunk that does not overflow the buffer goes to the loop.
  on_data-drain_loop :
      (x : Text) (c : Client)
      → c.destroyed ≡ false
      → length (c.buffer ++ x) ≤ max_frame_bytes
      → on_data inflate utf8 x c
        ≡ drain_loop inflate utf8 (length (c.buffer ++ x)) (set_buffer (c.buffer ++ x) c)
  unfolding on_data drain_buffer
  on_data-drain_loop x c d l =
      let t : ltb max_frame_bytes (length (c.buffer ++ x)) ≡ false = ground arith in
      rw t (
        ap
          (λ (b : Bool).
            if b
            then (c, [])
            else drain_loop inflate utf8 (length (c.buffer ++ x)) (set_buffer (c.buffer ++ x) c))
          d)

  feed_end :
      (ms : List Sent) (c : Client)
      → All (IsSent size) ms
      → next_frame c.buffer ≡ none
      → c.buffer ++ [] ≡ wire ms
      → (c, []) ≡ with_buffer [] (handled inflate utf8 size ms c)
  unfolding handle_all wire
  feed_end [] c h k e = ap (λ b. (set_buffer b c, [])) (empty_of_append c.buffer [] e)
  feed_end (m ∷ ms) c (s, h) k e = absurd (
      none_ne_some (
        sym k
        ∙ ap next_frame (sym (append_nil c.buffer) ∙ e)
        ∙ next_frame-bytes size m (wire ms) s))

  feed_from :
      (xs : List Text) (ms : List Sent) (c : Client)
      → All (IsSent size) ms
      → All (λ x. length x + size ≤ max_frame_bytes) xs
      → c.destroyed ≡ false
      → next_frame c.buffer ≡ none
      → length c.buffer ≤ size
      → c.buffer ++ join xs ≡ wire ms
      → feed inflate utf8 xs c ≡ with_buffer [] (handled inflate utf8 size ms c)
  unfolding feed join
  feed_from [] ms c h v d k l e = feed_end ms c h k e
  feed_from (x ∷ xs) ms c h (v, vs) d k l e =
      let a : Drained inflate utf8 size (length (c.buffer ++ x)) ms (set_buffer (c.buffer ++ x) c)
          (join xs) =
        drain inflate utf8 size ms (length (c.buffer ++ x)) (set_buffer (c.buffer ++ x) c) (join xs)
          h (omega arith) (append_assoc c.buffer x (join xs) ∙ e) in
      let r : Client = set_buffer a.rest (handled inflate utf8 size a.done c).0 in
      let q : on_data inflate utf8 x c ≡ with_buffer a.rest (handled inflate utf8 size a.done c) =
        on_data-drain_loop x c d (omega (arith, length-append c.buffer x))
        ∙ a.outcome
        ∙ ap (with_buffer a.rest)
            (handle_all-set_buffer inflate utf8 size (c.buffer ++ x) (map frame_of a.done) c) in
      let ih : feed inflate utf8 xs r ≡ with_buffer [] (handled inflate utf8 size a.later r) =
        feed_from xs a.later r a.IsSent_later vs
          (handle-All_open inflate utf8 size a.done c a.IsSent_done ∙ d) a.no_frame a.short
          a.bytes_later in
      rw
        (
          q,
          ih,
          handle_all-set_buffer inflate utf8 size a.rest (map frame_of a.later)
              (handled inflate utf8 size a.done c).0,
        )
        (ap (with_buffer []) (sym (handled-append a.done a.later c)))
      ∙ ap (λ ns. with_buffer [] (handled inflate utf8 size ns c)) (sym a.splits)

  -- A client on a fresh buffer sends frames of at most `size` bytes, none of them a close, and they
  -- arrive in chunks that with such a frame stay below the limit of 1 MB. However the chunks cut
  -- the bytes, the handler does what handling the frames that were sent, whole and in order, does.
  pub feed-handle_all :
      (xs : List Text) (ms : List Sent) (c : Client)
      → All (IsSent size) ms
      → All (λ x. length x + size ≤ max_frame_bytes) xs
      → join xs ≡ wire ms
      → c.destroyed ≡ false
      → c.buffer ≡ []
      → feed inflate utf8 xs c ≡ handle_all inflate utf8 (map frame_of ms) c
  feed-handle_all xs ms c h v e d b =
      feed_from xs ms c h v d (ap next_frame b ∙ next_frame_empty) (omega (arith, ap length b))
        (ap (λ z. z ++ join xs) b ∙ e)
      ∙ sym (handle_all-set_buffer inflate utf8 size [] (map frame_of ms) c)
      ∙ ap (λ z. handle_all inflate utf8 (map frame_of ms) (set_buffer z c)) (sym b)
