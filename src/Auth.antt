-- ===== src/Auth.antt =====
-- internal/auth: who may read and post, and which names and passwords are accepted.
pub mod Validate
pub mod Store
pub mod Database
