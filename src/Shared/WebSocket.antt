-- ===== src/Shared/WebSocket.antt =====
-- src/shared/websocket-server.ts: the WebSocket server of the dashboard.
pub mod Frames
pub mod Bytes
pub mod Reading
pub mod RoundTrip
pub mod Deflate
pub mod Server
pub mod Stream
pub mod Parsing
pub mod Handling
pub mod Sent
pub mod Draining
pub mod Chunks
pub mod Clients
pub mod Broadcasts
pub mod Pings
