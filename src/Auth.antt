-- ===== src/Auth.antt =====
-- Tokens and invite links: app/modules/auth.
pub mod Tokens
pub mod Sessions
pub mod Invites
