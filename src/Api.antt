-- ===== src/Api.antt =====
-- The HTTP server of the notifications (notifications/notifications_api.js).
pub mod Defs
pub mod Guarded
pub mod Tests
