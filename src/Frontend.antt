-- ===== src/Frontend.antt =====
-- What the frontend decides by itself.
pub mod Actions
pub mod Snackbars
pub mod Filters
pub mod Failures
pub mod TaskEvents
pub mod SubmitForm
pub mod Pages
pub mod TaskPage
