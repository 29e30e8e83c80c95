-- ===== src/Extend.antt =====
-- Settings over defaults (web-phalcon/public/js/netgraphz/tools.js).
pub mod Defs
pub mod Keys
pub mod Tests
