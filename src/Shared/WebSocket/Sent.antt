-- ===== src/Shared/WebSocket/Sent.antt =====
-- What a client sends to src/shared/websocket-server.ts, and what `parseFrame` makes of a part of it.
use agentic_collab.Common.{
  ◌≡◌, ◌≢◌, refl, ap, sym, ◌∙◌, ℕ, ◌≤◌, ◌<◌, [], ◌∷◌, ◌++◌, arith, Text, Option-cases, Bool-cases,
  some, none, inl, inr, List, length, ltb, some_inj,
}
use agentic_collab.Shared.WebSocket.Frames.{Frame, parse_frame, opcode_close}
use agentic_collab.Shared.WebSocket.Reading.{client_frame}
use agentic_collab.Shared.WebSocket.RoundTrip.{meant, parse_frame-client_frame}
use agentic_collab.Shared.WebSocket.Parsing.{parse_frame-append, parse_frame_fits}
use agentic_collab.Shared.WebSocket.Stream.{next_frame}

-- A frame as a client sends it: the first byte, the masking key and the payload.
pub record Sent : Type 0 where
  pub first : ℕ
  pub key : Text
  pub payload : Text

abbrev pub bytes : Sent → Text
bytes m = client_frame m.first m.key m.payload

-- All the bytes that are sent, and the frames that they mean.
unfoldable pub wire : List Sent → Text
wire [] = []
wire (m ∷ ms) = bytes m ++ wire ms

abbrev pub frame_of : Sent → Frame
frame_of m = meant m.first m.payload (length (bytes m))

unfoldable pub join : List Text → Text
join [] = []
join (x ∷ xs) = x ++ join xs

-- A frame of at most `size` bytes, with a key of four bytes, that is not a close.
abbrev pub IsSent : ℕ → Sent → Type 0
IsSent size m =
    (length m.key ≡ 4)
    × (length m.payload < 18446744073709551616)
    × (length (bytes m) ≤ size)
    × ((frame_of m).opcode ≢ opcode_close)

next_frame-parse_frame : (b : Text) → next_frame b ≡ parse_frame b
unfolding next_frame parse_frame
next_frame-parse_frame b = elim (Bool-cases (ltb (length b) 2)) [
  | inl e ↦ rw e refl
  | inr e ↦ rw e refl
]

pub next_frame-bytes :
    (size : ℕ) (m : Sent) (rest : Text)
    → IsSent size m
    → next_frame (bytes m ++ rest) ≡ some (frame_of m)
next_frame-bytes size m rest (four, big, _, _) =
    next_frame-parse_frame (bytes m ++ rest)
    ∙ parse_frame-client_frame m.first m.key m.payload rest four big

-- The first of two texts that make the same text as `ws` and `zs`, where it is no shorter than `ws`.
pub split_at :
    (xs y ws zs : Text)
    → xs ++ y ≡ ws ++ zs
    → length ws ≤ length xs
    → (b : Text) × (xs ≡ ws ++ b) × (b ++ y ≡ zs)
split_at xs y [] zs e h = (xs, refl, e)
split_at [] y (w ∷ ws) zs e h = absurd (omega arith)
split_at (x ∷ xs) y (w ∷ ws) zs e h =
    let (b, p, q) = split_at xs y ws zs (cc) (omega arith) in (b, cc, q)

pub empty_of_append : (xs ys : Text) → xs ++ ys ≡ [] → xs ≡ []
empty_of_append [] ys e = refl
empty_of_append (x ∷ xs) ys e = cc

pub next_frame_empty : next_frame [] ≡ none
unfolding next_frame
next_frame_empty = refl

pub bytes_positive : (m : Sent) → 1 ≤ length (bytes m)
unfolding client_frame
bytes_positive m = omega arith

pub short_of :
    (size : ℕ) (m : Sent) (xs : Text)
    → IsSent size m
    → length xs < length (bytes m)
    → length xs ≤ size
short_of size m xs (_, _, big, _) h = omega arith

-- A frame that has not arrived whole is not parsed.
pub next_frame_short :
    (size : ℕ) (m : Sent) (xs y rest : Text)
    → IsSent size m
    → xs ++ y ≡ bytes m ++ rest
    → length xs < length (bytes m)
    → next_frame xs ≡ none
next_frame_short size m xs y rest s e h = elim (Option-cases (next_frame xs)) [
  | inl n ↦ n
  | inr (f, n) ↦
      let p : parse_frame xs ≡ some f = sym (next_frame-parse_frame xs) ∙ n in
      let q : some f ≡ some (frame_of m) =
        sym (parse_frame-append xs y f p)
        ∙ ap parse_frame e
        ∙ sym (next_frame-parse_frame (bytes m ++ rest))
        ∙ next_frame-bytes size m rest s in
      absurd
        (omega (arith, parse_frame_fits xs f p, ap (λ (g : Frame). g.total_length) (some_inj q)))
]
