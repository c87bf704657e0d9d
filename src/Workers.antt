-- ===== src/Workers.antt =====
-- The workers that come with the server: backend/src/workers.
pub mod Addresses
pub mod UrlGuard
pub mod HtmlExtract
pub mod Fetching
pub mod WebScrape
pub mod Mock
