-- ===== src/Refinement.antt =====
-- The store and the engine (backend/src/engine) against the life of tasks (Lifecycle.antt).
pub mod Rules
pub mod Store
pub mod Actions
pub mod Runner
pub mod Jobs
pub mod Operations
pub mod Reachable
pub mod Handles
