-- ===== src/Tests.antt =====
-- Test data, runs at concrete inputs, and the theorems at concrete inputs.
pub mod Shared
pub mod Database
pub mod Lifecycle
pub mod Dispatcher
pub mod Reminders
pub mod Launch
pub mod WebSocket
pub mod Hooks
pub mod Network
pub mod Monitor
