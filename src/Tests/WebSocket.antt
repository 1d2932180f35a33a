-- ===== src/Tests/WebSocket.antt =====
-- The WebSocket server (src/shared/websocket-server.ts) at concrete inputs.
use agentic_collab.Common.{
  ◌≡◌, ◌≢◌, refl, true, false, not, ◌&&◌, Option, some, List, [], ◌∷◌, ◌++◌, ◌≤◌, codes, Text,
  arith, length, map, any, bit_and-fifteen,
}
use agentic_collab.Shared.WebSocket.Frames.{Frame, parse_frame, byte_at, opcode_close, opcode_pong}
use agentic_collab.Shared.WebSocket.Reading.{mask_key, client_frame, client_length, masked}
use agentic_collab.Shared.WebSocket.RoundTrip.{meant, parse_frame-client_frame}
use agentic_collab.Shared.WebSocket.Server.{Client, include, ping_client, should_deliver}
use agentic_collab.Shared.WebSocket.Stream.{feed}
use agentic_collab.Shared.WebSocket.Sent.{Sent, bytes, wire, join, frame_of}
use agentic_collab.Shared.WebSocket.Draining.{handle_all}
use agentic_collab.Shared.WebSocket.Chunks.{feed-handle_all}
use agentic_collab.Shared.WebSocket.Clients.{Server, new_client, on_each, broadcast_filtered}
use agentic_collab.Shared.WebSocket.Broadcasts.{send_if, broadcast_filtered-send}
use agentic_collab.Shared.WebSocket.Pings.{is_heard, is_close, ping_client-handle_all}

-- Compression that does nothing, and the decoding of ASCII.
abbrev same : Text → Text
same t = t

abbrev inflated : Text → Option Text
inflated t = some t

abbrev hello : Sent
hello = record { first = 129; key = mask_key 1 2 3 4; payload = codes "hello" }

abbrev ping : Sent
ping = record { first = 137; key = mask_key 9 9 9 9; payload = [] }

parse_frame-client_frame_example :
    parse_frame (client_frame 129 (mask_key 1 2 3 4) (codes "hello") ++ codes "xyz")
    ≡ some
        (meant 129 (codes "hello") (length (client_frame 129 (mask_key 1 2 3 4) (codes "hello"))))
parse_frame-client_frame_example =
    parse_frame-client_frame 129 (mask_key 1 2 3 4) (codes "hello") (codes "xyz") refl (omega arith)

-- The two frames in three chunks, none of which ends where a frame ends.
abbrev chunks : List Text
chunks =
    (129 ∷ 133 ∷ 1 ∷ [])
    ∷ (2 ∷ 3 ∷ 4 ∷ 105 ∷ 103 ∷ 111 ∷ 104 ∷ 110 ∷ 137 ∷ [])
    ∷ (128 ∷ 9 ∷ 9 ∷ 9 ∷ 9 ∷ [])
    ∷ []

chunks-wire : join chunks ≡ wire (hello ∷ ping ∷ [])
unfolding join wire client_frame client_length masked byte_at
chunks-wire = refl

hello_size : length (bytes hello) ≤ 100
unfolding client_frame client_length masked byte_at
hello_size = omega arith

ping_size : length (bytes ping) ≤ 100
unfolding client_frame client_length masked byte_at
ping_size = omega arith

hello_open : (frame_of hello).opcode ≢ opcode_close
hello_open = ground (arith, bit_and-fifteen 129)

ping_open : (frame_of ping).opcode ≢ opcode_close
ping_open = ground (arith, bit_and-fifteen 137)

feed-handle_all_example :
    feed inflated same chunks (new_client 0 false)
    ≡ handle_all inflated same (map frame_of (hello ∷ ping ∷ [])) (new_client 0 false)
feed-handle_all_example =
    feed-handle_all inflated same 100 chunks (hello ∷ ping ∷ []) (new_client 0 false)
      ((refl, omega arith, hello_size, hello_open), ((refl, omega arith, ping_size, ping_open), tt))
      (omega arith, (omega arith, (omega arith, tt))) chunks-wire refl refl

abbrev focused : Client
focused = record (new_client 1 true) {
  subscription = record { mode = include; agents = "bob" ∷ [] };
}

abbrev two_clients : Server
two_clients = record {
  clients = new_client 0 false ∷ focused ∷ [];
  next_id = 2;
  pinging = true;
  log = [];
}

broadcast_filtered-send_example :
    broadcast_filtered same (codes "{}") (some "eve") two_clients
    ≡ on_each (send_if same (λ c. should_deliver c (some "eve")) (codes "{}")) two_clients
broadcast_filtered-send_example = broadcast_filtered-send same (codes "{}") (some "eve") two_clients

abbrev pong : Frame
pong = record { opcode = opcode_pong; payload = []; total_length = 6; compressed = false }

ping_client-handle_all_example :
    (ping_client (handle_all inflated same (pong ∷ []) (ping_client focused).0).0).0.listed ≡ (
      ((focused.listed && focused.alive) && not (any is_close (pong ∷ [])))
      && any is_heard (pong ∷ []))
ping_client-handle_all_example = ping_client-handle_all inflated same (pong ∷ []) focused
