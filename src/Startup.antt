-- ===== src/Startup.antt =====
-- The start of the browser's program (web-phalcon/public/js/netgraphz/main.js).
pub mod Defs
pub mod Loaded
pub mod Parts
pub mod Tests
