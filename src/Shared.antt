-- ===== src/Shared.antt =====
-- What the orchestrator, the proxy and the dashboard share (src/shared).
pub mod Address
pub mod Agent
pub mod Lock
pub mod Sanitize
pub mod WebSocket
