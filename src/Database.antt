-- ===== src/Database.antt =====
-- The tables of src/orchestrator/database.ts.
pub mod Agents
pub mod Queue
pub mod Reminders
pub mod Proxies
