-- ===== src/Http.antt =====
-- The HTTP layer's own decisions: answers to errors and pagination.
pub mod Errors
pub mod Pages
pub mod Stream
pub mod Auth
pub mod TaskSchema
pub mod TaskRoutes
pub mod AccountRoutes
