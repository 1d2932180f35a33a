-- ===== src/Shared/WebSocket/Pings.antt =====
-- The ping interval of src/shared/websocket-server.ts: which clients it keeps.
use agentic_collab.Common.{
  any, ◌≡◌, refl, ap, ap₂, sym, ◌∙◌, Bool, true, false, not, ◌&&◌, ◌||◌, Option, none, some, List,
  [], ◌∷◌, if◌then◌else◌, Text, inl, inr, Bool-cases, arith, ◌==◌,
}
use agentic_collab.Shared.WebSocket.Frames.{
  Frame, encode_frame, opcode_text, opcode_ping, opcode_pong, opcode_close,
}
use agentic_collab.Shared.WebSocket.Server.{
  Client, ClientOutcome, set_alive, destroy, write_frame, remove_client, send_ping, send_pong,
  send_close, ping_client, handle_text, handle_frame,
}
use agentic_collab.Shared.WebSocket.Draining.{handle_all}

-- A sign of life, and a goodbye.
unfoldable pub is_heard : Frame → Bool
is_heard f = (f.opcode == opcode_text) || ((f.opcode == opcode_ping) || (f.opcode == opcode_pong))

unfoldable pub is_close : Frame → Bool
is_close f = f.opcode == opcode_close

module _ (r s : ClientOutcome) where
  listed_if : (b : Bool) → (if b then r else s).0.listed ≡ (if b then r.0.listed else s.0.listed)
  listed_if true = refl
  listed_if false = refl

  alive_if : (b : Bool) → (if b then r else s).0.alive ≡ (if b then r.0.alive else s.0.alive)
  alive_if true = refl
  alive_if false = refl

if_same : {A : Type 0} (b : Bool) (x : A) → (if b then x else x) ≡ x
if_same true x = refl
if_same false x = refl

if_false : (b : Bool) → (if b then false else b) ≡ false
if_false true = refl
if_false false = refl

if_not_alive : (l a : Bool) → (if not a then false else l) ≡ (l && a)
if_not_alive true true = refl
if_not_alive false true = refl
if_not_alive true false = refl
if_not_alive false false = refl

if_not_self : (a : Bool) → (if not a then a else false) ≡ false
if_not_self true = refl
if_not_self false = refl

and-true : (b : Bool) → (b && true) ≡ b
and-true true = refl
and-true false = refl

and-false : (b : Bool) → (b && false) ≡ false
and-false true = refl
and-false false = refl

or-true : (b : Bool) → (b || true) ≡ true
or-true true = refl
or-true false = refl

and_not-or : (a b c : Bool) → ((a && not b) && not c) ≡ (a && not (b || c))
and_not-or false b c = refl
and_not-or true false c = refl
and_not-or true true c = refl

or_assoc : (a b c : Bool) → ((a || b) || c) ≡ (a || (b || c))
or_assoc true b c = refl
or_assoc false b c = refl

or-false : (b : Bool) → (b || false) ≡ b
or-false true = refl
or-false false = refl

write_frame-listed : (frame : Text) (c : Client) → (write_frame frame c).0.listed ≡ c.listed
unfolding write_frame
write_frame-listed frame c = listed_if _ _ c.writable ∙ if_same c.writable c.listed

write_frame-alive : (frame : Text) (c : Client) → (write_frame frame c).0.alive ≡ c.alive
unfolding write_frame
write_frame-alive frame c = alive_if _ _ c.writable ∙ if_same c.writable c.alive

remove_client-listed : (c : Client) → (remove_client c).0.listed ≡ false
unfolding remove_client destroy
remove_client-listed c = listed_if _ _ c.listed ∙ if_false c.listed

remove_client-alive : (c : Client) → (remove_client c).0.alive ≡ c.alive
unfolding remove_client destroy
remove_client-alive c = alive_if _ _ c.listed ∙ if_same c.listed c.alive

ping_client-listed : (c : Client) → (ping_client c).0.listed ≡ (c.listed && c.alive)
unfolding ping_client send_ping
ping_client-listed c =
    listed_if (remove_client c) _ (not c.alive)
    ∙ ap₂ (λ (p q : Bool). if not c.alive then p else q) (remove_client-listed c)
        (write_frame-listed (encode_frame opcode_ping [] false) (set_alive false c))
    ∙ if_not_alive c.listed c.alive

ping_client-alive : (c : Client) → (ping_client c).0.alive ≡ false
unfolding ping_client send_ping
ping_client-alive c =
    alive_if (remove_client c) _ (not c.alive)
    ∙ ap₂ (λ (p q : Bool). if not c.alive then p else q) (remove_client-alive c)
        (write_frame-alive (encode_frame opcode_ping [] false) (set_alive false c))
    ∙ if_not_self c.alive

module _ (inflate : Text → Option Text) (utf8 : Text → Text) where
  handle_text-client : (c : Client) (o : Option Text) → (handle_text inflate utf8 c o).0 ≡ c
  unfolding handle_text
  handle_text-client c none = refl
  handle_text-client c (some t) = refl

  handle_frame-listed :
      (f : Frame) (c : Client)
      → (handle_frame inflate utf8 f c).0.listed ≡ (c.listed && not (is_close f))
  unfolding handle_frame send_pong send_close is_close
  handle_frame-listed f c = elim (Bool-cases (f.opcode == opcode_text)) [
    | inl e ↦
        let k : (f.opcode == opcode_close) ≡ false = ground arith in
        rw (e, k, and-true c.listed)
          (ap (λ (d : Client). d.listed) (handle_text-client (set_alive true c) _))
    | inr e ↦ elim (Bool-cases (f.opcode == opcode_ping)) [
      | inl g ↦
          let k : (f.opcode == opcode_close) ≡ false = ground arith in
          rw (e, g, k, and-true c.listed) (write_frame-listed _ (set_alive true c))
      | inr g ↦ elim (Bool-cases (f.opcode == opcode_pong)) [
        | inl h ↦
            let k : (f.opcode == opcode_close) ≡ false = ground arith in
            rw (e, g, h, k, and-true c.listed) refl
        | inr h ↦ elim (Bool-cases (f.opcode == opcode_close)) [
          | inl k ↦ rw (e, g, h, k, and-false c.listed) (remove_client-listed _)
          | inr k ↦ rw (e, g, h, k, and-true c.listed) refl
        ]
      ]
    ]
  ]

  handle_frame-alive :
      (f : Frame) (c : Client) → (handle_frame inflate utf8 f c).0.alive ≡ (c.alive || is_heard f)
  unfolding handle_frame send_pong send_close is_heard
  handle_frame-alive f c = elim (Bool-cases (f.opcode == opcode_text)) [
    | inl e ↦
        rw (e, or-true c.alive)
          (ap (λ (d : Client). d.alive) (handle_text-client (set_alive true c) _))
    | inr e ↦ elim (Bool-cases (f.opcode == opcode_ping)) [
      | inl g ↦ rw (e, g, or-true c.alive) (write_frame-alive _ (set_alive true c))
      | inr g ↦ elim (Bool-cases (f.opcode == opcode_pong)) [
        | inl h ↦ rw (e, g, h, or-true c.alive) refl
        | inr h ↦ elim (Bool-cases (f.opcode == opcode_close)) [
          | inl k ↦
              rw (e, g, h, k, or-false c.alive) (remove_client-alive _ ∙ write_frame-alive _ c)
          | inr k ↦ rw (e, g, h, k, or-false c.alive) refl
        ]
      ]
    ]
  ]

  handle_all-listed :
      (fs : List Frame) (c : Client)
      → (handle_all inflate utf8 fs c).0.listed ≡ (c.listed && not (any is_close fs))
  unfolding handle_all
  handle_all-listed [] c = sym (and-true c.listed)
  handle_all-listed (f ∷ fs) c =
      handle_all-listed fs (handle_frame inflate utf8 f c).0
      ∙ ap (λ b. b && not (any is_close fs)) (handle_frame-listed f c)
      ∙ and_not-or c.listed (is_close f) (any is_close fs)

  handle_all-alive :
      (fs : List Frame) (c : Client)
      → (handle_all inflate utf8 fs c).0.alive ≡ (c.alive || any is_heard fs)
  unfolding handle_all
  handle_all-alive [] c = sym (or-false c.alive)
  handle_all-alive (f ∷ fs) c =
      handle_all-alive fs (handle_frame inflate utf8 f c).0
      ∙ ap (λ b. b || any is_heard fs) (handle_frame-alive f c)
      ∙ or_assoc c.alive (is_heard f) (any is_heard fs)

  -- A client stays connected over two rounds of the ping interval exactly when it was connected and
  -- heard from at the first and, between them, sent a text, a ping or a pong, and no close.
  pub ping_client-handle_all :
      (fs : List Frame) (c : Client)
      → (ping_client (handle_all inflate utf8 fs (ping_client c).0).0).0.listed
        ≡ (((c.listed && c.alive) && not (any is_close fs)) && any is_heard fs)
  ping_client-handle_all fs c =
      ping_client-listed (handle_all inflate utf8 fs (ping_client c).0).0
      ∙ ap₂ (λ (p q : Bool). p && q)
          (handle_all-listed fs (ping_client c).0
            ∙ ap (λ b. b && not (any is_close fs)) (ping_client-listed c))
          (handle_all-alive fs (ping_client c).0
            ∙ ap (λ b. b || any is_heard fs) (ping_client-alive c))
