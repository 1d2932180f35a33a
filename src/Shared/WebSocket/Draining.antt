-- ===== src/Shared/WebSocket/Draining.antt =====
-- src/shared/websocket-server.ts: where the loop of the data handler stops when the bytes that have
-- arrived are the start of what a client sends.
use agentic_collab.Common.{
  ◌≡◌, refl, ap, ◌∙◌, ℕ, zero, suc, ◌≤◌, [], ◌∷◌, ◌++◌, arith, Text, Bool-cases, Option, some, none,
  inl, inr, List, map, length, length-append, All, leb,
}
use agentic_collab.Shared.WebSocket.Frames.{Frame, subarray}
use agentic_collab.Shared.WebSocket.Bytes.{subarray-append}
use agentic_collab.Shared.WebSocket.Server.{Client, ClientOutcome, also, handle_frame}
use agentic_collab.Shared.WebSocket.Stream.{set_buffer, next_frame, drain_loop, drain_round}
use agentic_collab.Shared.WebSocket.Handling.{
  with_buffer, handle_frame-set_buffer, handle_frame_open,
}
use agentic_collab.Shared.WebSocket.Sent.{
  Sent, bytes, wire, frame_of, IsSent, next_frame-bytes, split_at, empty_of_append,
  next_frame_empty, bytes_positive, short_of, next_frame_short,
}

-- The frames, handled one after the other.
unfoldable pub handle_all :
    (Text → Option Text) → (Text → Text) → List Frame → Client → ClientOutcome
handle_all inflate utf8 [] c = (c, [])
handle_all inflate utf8 (f ∷ fs) c =
    also (handle_frame inflate utf8 f c) (handle_all inflate utf8 fs)

module _ (inflate : Text → Option Text) (utf8 : Text → Text) (size : ℕ) where
  abbrev pub handled : List Sent → Client → ClientOutcome
  handled ms c = handle_all inflate utf8 (map frame_of ms) c

  pub handle_all-set_buffer :
      (b : Text) (fs : List Frame) (c : Client)
      → handle_all inflate utf8 fs (set_buffer b c) ≡ with_buffer b (handle_all inflate utf8 fs c)
  unfolding handle_all
  handle_all-set_buffer b [] c = refl
  handle_all-set_buffer b (f ∷ fs) c =
      rw
        (
          handle_frame-set_buffer b inflate utf8 f c,
          handle_all-set_buffer b fs (handle_frame inflate utf8 f c).0,
        )
        refl

  pub handle-All_open :
      (ms : List Sent) (c : Client)
      → All (IsSent size) ms
      → (handled ms c).0.destroyed ≡ c.destroyed
  unfolding handle_all
  handle-All_open [] c h = refl
  handle-All_open (m ∷ ms) c ((_, _, _, k), h) =
      handle-All_open ms (handle_frame inflate utf8 (frame_of m) c).0 h
      ∙ handle_frame_open inflate utf8 (frame_of m) c k

  drain_loop_stop :
      (n : ℕ) (c : Client) → next_frame c.buffer ≡ none → drain_loop inflate utf8 n c ≡ (c, [])
  unfolding drain_loop drain_round
  drain_loop_stop zero c k = refl
  drain_loop_stop (suc n) c k = rw k refl

  -- Where the loop stops: the frames that it handled, those to come, and what is left of the bytes.
  pub record Drained (n : ℕ) (ms : List Sent) (c : Client) (y : Text) : Type 0 where
    pub done : List Sent
    pub later : List Sent
    pub rest : Text
    pub splits : ms ≡ done ++ later
    pub IsSent_done : All (IsSent size) done
    pub IsSent_later : All (IsSent size) later
    pub bytes_later : rest ++ y ≡ wire later
    pub no_frame : next_frame rest ≡ none
    pub short : length rest ≤ size
    pub outcome : drain_loop inflate utf8 n c ≡ with_buffer rest (handled done c)

  Drained-none :
      (n : ℕ) (ms : List Sent) (c : Client) (y : Text)
      → All (IsSent size) ms
      → c.buffer ++ y ≡ wire ms
      → next_frame c.buffer ≡ none
      → length c.buffer ≤ size
      → Drained n ms c y
  unfolding handle_all
  Drained-none n ms c y h e k l = record {
    done = [];
    later = ms;
    rest = c.buffer;
    splits = refl;
    IsSent_done = tt;
    IsSent_later = h;
    bytes_later = e;
    no_frame = k;
    short = l;
    outcome = drain_loop_stop n c k;
  }

  drain_loop_step :
      (n : ℕ) (m : Sent) (c : Client) (b : Text)
      → IsSent size m
      → c.buffer ≡ bytes m ++ b
      → drain_loop inflate utf8 (suc n) c
        ≡ also
            (with_buffer b (handle_frame inflate utf8 (frame_of m) c))
            (drain_loop inflate utf8 n)
  unfolding drain_loop drain_round
  drain_loop_step n m c b s p =
      let e : next_frame c.buffer ≡ some (frame_of m) =
        ap next_frame p ∙ next_frame-bytes size m b s in
      let q : subarray (frame_of m).total_length c.buffer ≡ b =
        ap (λ z. subarray (frame_of m).total_length z) p ∙ subarray-append (bytes m) b in
      rw (e, q, handle_frame-set_buffer b inflate utf8 (frame_of m) c) refl

  Drained-step :
      (n : ℕ) (m : Sent) (ms : List Sent) (c : Client) (y b : Text)
      → IsSent size m
      → c.buffer ≡ bytes m ++ b
      → Drained n ms (set_buffer b (handle_frame inflate utf8 (frame_of m) c).0) y
      → Drained (suc n) (m ∷ ms) c y
  unfolding handle_all
  Drained-step n m ms c y b s p d = record {
    done = m ∷ d.done;
    later = d.later;
    rest = d.rest;
    splits = ap (λ ns. m ∷ ns) d.splits;
    IsSent_done = (s, d.IsSent_done);
    IsSent_later = d.IsSent_later;
    bytes_later = d.bytes_later;
    no_frame = d.no_frame;
    short = d.short;
    outcome =
        rw
          (
            drain_loop_step n m c b s p,
            d.outcome,
            handle_all-set_buffer b (map frame_of d.done)
                (handle_frame inflate utf8 (frame_of m) c).0,
          )
          refl;
  }

  pub drain :
      (ms : List Sent) (n : ℕ) (c : Client) (y : Text)
      → All (IsSent size) ms
      → length c.buffer ≤ n
      → c.buffer ++ y ≡ wire ms
      → Drained n ms c y
  unfolding wire
  drain [] n c y h l e =
      let p : c.buffer ≡ [] = empty_of_append c.buffer y e in
      Drained-none n [] c y h e (ap next_frame p ∙ next_frame_empty) (omega (arith, ap length p))
  drain (m ∷ ms) zero c y (s, h) l e =
      Drained-none zero (m ∷ ms) c y (s, h) e
        (next_frame_short size m c.buffer y (wire ms) s e (omega (arith, bytes_positive m)))
        (omega arith)
  drain (m ∷ ms) (suc n) c y (s, h) l e =
      elim (Bool-cases (leb (length (bytes m)) (length c.buffer))) [
        | inl t ↦
            let (b, p, q) = split_at c.buffer y (bytes m) (wire ms) e (ground arith) in
            Drained-step n m ms c y b s p (
              drain ms n (set_buffer b (handle_frame inflate utf8 (frame_of m) c).0) y h
                (omega (arith, bytes_positive m, ap length p, length-append (bytes m) b)) q)
        | inr t ↦
            Drained-none (suc n) (m ∷ ms) c y (s, h) e
              (next_frame_short size m c.buffer y (wire ms) s e (ground arith))
              (short_of size m c.buffer s (ground arith))
      ]
