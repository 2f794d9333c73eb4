-- ===== src/Auth.antt =====
-- Accounts at work: sessions, access tokens, the cache of unlocked keys, and the login
-- (server/app/services/sessions.py and login.py, server/app/security).
pub mod Policy
pub mod KeyCache
pub mod Tokens
pub mod Sessions
pub mod Login
mod Tests
