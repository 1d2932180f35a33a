-- ===== src/Lifecycle.antt =====
-- src/orchestrator/lifecycle.ts. The lock of an agent is held in the first and the last phase of a
-- long operation and not between them, so a phase is one step, and other steps come in any order.
pub mod Fleet
pub mod Phases
pub mod Single
pub mod Steps
pub mod Machine
pub mod Moves
pub mod History
pub mod Races
pub mod Stops
pub mod Config
pub mod Hooks
pub mod Launch
pub mod Templates
pub mod Resolving
pub mod Network
pub use Fleet.*
pub use Phases.*
pub use Single.*
pub use Steps.*
