-- ===== src/Notifications.antt =====
-- The notification server (notifications/).
pub mod Body
pub mod State
pub mod Limiter
pub mod Aggregator
pub mod Handler
pub mod Response
pub mod Routes
pub mod Tests
