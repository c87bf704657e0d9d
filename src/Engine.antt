-- ===== src/Engine.antt =====
-- The engine of backend/src/engine over the store: its event bus, handle allocation, worker registry,
-- runner, and the operations that the HTTP layer calls.
pub mod Bus
pub mod Numbers
pub mod Registry
pub mod World
pub mod Handles
pub mod Runner
pub mod Jobs
pub mod Operations
pub mod Ownership
pub mod Calls
pub mod Defaults
