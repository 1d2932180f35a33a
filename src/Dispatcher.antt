-- ===== src/Dispatcher.antt =====
-- src/orchestrator/message-dispatcher.ts. A delivery is cut at its two `await`s into the steps
-- `try_deliver` (or `fire`), `continue_delivery` and `finish_delivery`, which the event loop runs
-- one at a time in any order. What the lifecycle answers to a paste is the `Outcome` of
-- `finish_delivery`; a reading of the clock is an argument.
pub mod State
pub mod Deliver
pub mod Step
pub mod Loops
pub mod Updates
pub mod Deliveries
pub mod Exclusive
pub use State.*
pub use Deliver.*
pub use Step.*
