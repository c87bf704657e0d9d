-- ===== src/Accounts.antt =====
-- Users, their passwords and their API keys: backend/src/modules/user, auth and apikey, and
-- backend/src/lib/password.ts.
pub mod Store
pub mod Users
pub mod Keys
pub mod Passwords
pub mod Login
