-- ===== src/Communication.antt =====
-- The browser's end of the notification channel (web-phalcon/public/js/netgraphz/communication.js).
pub mod Defs
pub mod Host
pub mod Service
