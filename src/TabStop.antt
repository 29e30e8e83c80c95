-- ===== src/TabStop.antt =====
-- Cycling through the problem nodes with the Tab key
-- (web-phalcon/public/js/netgraphz/ui.tabstop.js).
pub mod Defs
pub mod Queue
pub mod Cycle
pub mod Tests
