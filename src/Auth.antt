-- ===== src/Auth.antt =====
-- backend/internal/auth: the login's defences.
pub mod Lockout
pub mod Access
pub mod SingleUse
