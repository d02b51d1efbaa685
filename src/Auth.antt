-- ===== src/Auth.antt =====
-- app/auth
pub mod ApiKey
pub mod Guard
