-- ===== src/Shared/WebSocket/Clients.antt =====
-- src/shared/websocket-server.ts: the operations of `WebSocketServer` on all its clients.
use agentic_collab.Common.{
  ℕ, suc, ◌+◌, String, Bool, true, false, not, ◌&&◌, Option, none, some, List, [], ◌∷◌, ◌++◌,
  if◌then◌else◌, length, Text, or_else, is_some, leb, ◌==◌,
}
use agentic_collab.Shared.WebSocket.Frames.{encode_frame, opcode_text}
use agentic_collab.Shared.WebSocket.Deflate.{compress_frame, negotiate}
use agentic_collab.Shared.WebSocket.Server.{
  Client, SocketEvent, ClientOutcome, accepted, wrote, closed_socket, on_connect, all,
  compress_threshold, ping_client, close_client, should_deliver,
}

-- The object: `log` holds the events so far.
pub record Server : Type 0 where
  pub clients : List Client
  pub next_id : ℕ
  pub pinging : Bool
  pub log : List SocketEvent

-- `for (const c of this.clients.values())`, in the order of the clients' arrival.
unfoldable pub for_each : (Client → ClientOutcome) → List Client → List Client × List SocketEvent
for_each f [] = ([], [])
for_each f (c ∷ cs) =
    let rest = for_each f cs in
    if c.listed then ((f c).0 ∷ rest.0, (f c).1 ++ rest.1) else (c ∷ rest.0, rest.1)

abbrev pub on_each : (Client → ClientOutcome) → Server → Server
on_each f s = record s {
  clients = (for_each f s.clients).0;
  log = s.log ++ (for_each f s.clients).1;
}

abbrev pub new_client : ℕ → Bool → Client
new_client id compress = record {
  id = id;
  listed = true;
  writable = true;
  destroyed = false;
  alive = true;
  compress = compress;
  subscription = record { mode = all; agents = [] };
  buffer = [];
}

-- `handleUpgrade`: the key and the extensions are headers, absent where empty; `accept` makes the
-- answer's key. A request without a key has its socket, numbered here like the client that it would
-- be, closed.
unfoldable pub handle_upgrade : (Text → Text) → Text → Text → Server → Bool × Server
handle_upgrade accept key extensions s =
    if length key == 0 then (false, record s { log = s.log ++ closed_socket s.next_id ∷ [] }) else (
      true,
      record s {
        clients = s.clients ++ new_client s.next_id (is_some (negotiate extensions)) ∷ [];
        next_id = suc s.next_id;
        pinging = true;
        log =
            s.log
            ++ (accepted s.next_id (accept key) (negotiate extensions) ∷ on_connect s.next_id ∷ []);
      },
    )

-- The callback of the interval.
unfoldable pub ping_clients : Server → Server
ping_clients s = on_each ping_client s

unfoldable pub close : Server → Server
close s = record (on_each close_client s) { pinging = false }

-- `clientCount`
unfoldable pub client_count : List Client → ℕ
client_count [] = 0
client_count (c ∷ cs) = (if c.listed then 1 else 0) + client_count cs

unfoldable pub zips : Text → Client → Bool
zips raw c = c.compress && leb compress_threshold (length raw)

unfoldable pub plain_frame : Text → Text
plain_frame raw = encode_frame opcode_text raw false

unfoldable pub compressed_frame : (Text → Text) → Text → Text
compressed_frame deflate raw = encode_frame opcode_text (compress_frame deflate raw) true

-- `if (frame === null) frame = …`, where it is wanted.
unfoldable pub cached : Bool → Option Text → Text → Option Text
cached wanted cache frame = if wanted then some (or_else cache frame) else cache

module _ (deflate : Text → Text) (receives : Client → Bool) (raw : Text) where
  unfoldable pub is_sent : Client → Bool
  is_sent c = c.listed && (c.writable && receives c)

  -- The loop of `broadcast` and `broadcastFiltered`, with the two frames that it has cached.
  unfoldable pub broadcast_loop : Option Text → Option Text → List Client → List SocketEvent
  broadcast_loop plain compressed [] = []
  broadcast_loop plain compressed (c ∷ cs) =
      let plain' = cached (is_sent c && not (zips raw c)) plain (plain_frame raw) in
      let compressed' =
        cached (is_sent c && zips raw c) compressed (compressed_frame deflate raw) in
      (if is_sent c
        then wrote c.id (or_else (if zips raw c then compressed' else plain') []) ∷ []
        else [])
      ++ broadcast_loop plain' compressed' cs

unfoldable pub broadcast : (Text → Text) → Text → Server → Server
broadcast deflate raw s = record s {
  log = s.log ++ broadcast_loop deflate (λ c. true) raw none none s.clients;
}

unfoldable pub broadcast_filtered : (Text → Text) → Text → Option String → Server → Server
broadcast_filtered deflate raw agent s = record s {
  log = s.log ++ broadcast_loop deflate (λ c. should_deliver c agent) raw none none s.clients;
}
