-- ===== src/Notifications/Limiter.antt =====
-- The rate limiter of notifications/event_handler.js.
pub mod Defs
pub mod Cases
pub mod Invariant
pub mod Order
pub mod Rate
