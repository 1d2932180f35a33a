-- ===== src/Shared/WebSocket/Server.antt =====
-- src/shared/websocket-server.ts: the clients of a `WebSocketServer` and its operations. What an
-- operation writes to a socket and which callbacks it calls are events. The texts that Node makes
-- (the accept key, JSON, UTF-8) and zlib are parameters.
use agentic_collab.Common.{
  ℕ, String, Bool, true, false, not, ◌&&◌, ◌||◌, Option, none, some, List, [], ◌∷◌, ◌++◌, leb, ◌==◌,
  if◌then◌else◌, length, Text, str_eq, any,
}
use agentic_collab.Shared.WebSocket.Frames.{
  Frame, encode_frame, opcode_text, opcode_close, opcode_ping, opcode_pong,
}
use agentic_collab.Shared.WebSocket.Deflate.{compress_frame, decompress_frame}

abbrev pub max_frame_bytes : ℕ
max_frame_bytes = 1048576

abbrev pub compress_threshold : ℕ
compress_threshold = 256

pub data SubscriptionMode : Type 0 where
  all : SubscriptionMode
  include : SubscriptionMode
  exclude : SubscriptionMode

pub record Subscription : Type 0 where
  pub mode : SubscriptionMode
  pub agents : List String

-- A `WsClient`: `listed` while it is in the map `clients`; `writable` is its socket's; `buffer` is
-- the variable of its data handler.
pub record Client : Type 0 where
  pub id : ℕ
  pub listed : Bool
  pub writable : Bool
  pub destroyed : Bool
  pub alive : Bool
  pub compress : Bool
  pub subscription : Subscription
  pub buffer : Text

-- What a client's socket is given, and the calls of the three callbacks.
pub data SocketEvent : Type 0 where
  accepted : ℕ → Text → Option Text → SocketEvent
  wrote : ℕ → Text → SocketEvent
  closed_socket : ℕ → SocketEvent
  on_connect : ℕ → SocketEvent
  on_message : ℕ → Text → SocketEvent
  on_disconnect : ℕ → SocketEvent

-- An operation on one client: the client after it, and the events.
abbrev pub ClientOutcome : Type 0
ClientOutcome = Client × List SocketEvent

abbrev pub also : ClientOutcome → (Client → ClientOutcome) → ClientOutcome
also r f = ((f r.0).0, r.1 ++ (f r.0).1)

-- `socket.destroy()`
unfoldable pub destroy : Client → ClientOutcome
destroy c = (record c { writable = false; destroyed = true }, closed_socket c.id ∷ [])

-- `if (client.socket.writable) client.socket.write(frame)`
unfoldable pub write_frame : Text → Client → ClientOutcome
write_frame frame c = if c.writable then (c, wrote c.id frame ∷ []) else (c, [])

unfoldable pub remove_client : Client → ClientOutcome
remove_client c =
    if c.listed
    then also (record c { listed = false }, on_disconnect c.id ∷ []) destroy
    else (c, [])

unfoldable pub send_ping : Client → ClientOutcome
send_ping c = write_frame (encode_frame opcode_ping [] false) c

unfoldable pub send_pong : Text → Client → ClientOutcome
send_pong payload c = write_frame (encode_frame opcode_pong payload false) c

unfoldable pub send_close : Client → ClientOutcome
send_close c = write_frame (encode_frame opcode_close [] false) c

abbrev pub set_alive : Bool → Client → Client
set_alive b c = record c { alive = b }

-- One round of the interval: a client that did not answer since the last one goes.
unfoldable pub ping_client : Client → ClientOutcome
ping_client c = if not c.alive then remove_client c else send_ping (set_alive false c)

unfoldable pub close_client : Client → ClientOutcome
close_client c = also (also (send_close c) destroy) (λ d. (record d { listed = false }, []))

module _ (inflate : Text → Option Text) (utf8 : Text → Text) where
  unfoldable pub handle_text : Client → Option Text → ClientOutcome
  handle_text c none = (c, [])
  handle_text c (some text) = (c, on_message c.id (utf8 text) ∷ [])

  unfoldable pub handle_frame : Frame → Client → ClientOutcome
  handle_frame f c =
      if f.opcode == opcode_text
      then handle_text (set_alive true c)
          (if f.compressed then decompress_frame inflate f.payload else some f.payload)
      else if f.opcode == opcode_ping
      then send_pong f.payload (set_alive true c)
      else if f.opcode == opcode_pong
      then (set_alive true c, [])
      else if f.opcode == opcode_close
      then also (send_close c) remove_client
      else (c, [])

unfoldable pub should_deliver : Client → Option String → Bool
should_deliver c agent = elim c.subscription.mode [
  | all ↦ true
  | include ↦ elim agent [
    | none ↦ true
    | some a ↦ str_eq a "" || any (λ b. str_eq b a) c.subscription.agents
  ]
  | exclude ↦ elim agent [
    | none ↦ true
    | some a ↦ str_eq a "" || not (any (λ b. str_eq b a) c.subscription.agents)
  ]
]

module _ (deflate : Text → Text) where
  unfoldable pub frame_for_client : Client → Text → Text
  frame_for_client c raw =
      if c.compress && leb compress_threshold (length raw)
      then encode_frame opcode_text (compress_frame deflate raw) true
      else encode_frame opcode_text raw false

  unfoldable pub send : Text → Client → ClientOutcome
  send raw c = write_frame (frame_for_client c raw) c

  -- `setSubscription`; `confirmation` is the JSON text of the answer.
  unfoldable pub set_subscription : Subscription → Text → Client → ClientOutcome
  set_subscription sub confirmation c = send confirmation (record c { subscription = sub })
