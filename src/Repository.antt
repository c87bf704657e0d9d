-- ===== src/Repository.antt =====
-- The Postgres store of tasks and events: backend/src/engine/repository.ts over the tables of
-- backend/db/migrations, with the transactions of backend/src/db.ts.
pub mod Sql
pub mod Schema
pub mod Slot
pub mod Writes
pub mod Operations
pub mod Reads
