-- ===== src/Authenticator.antt =====
-- The check of a request's credentials (notifications/authenticator.js).
pub mod Defs
pub mod Admission
pub mod Tests
