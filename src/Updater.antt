-- ===== src/Updater.antt =====
-- The periodic update of the nodes (web-phalcon/public/js/netgraphz/updater.js).
pub mod Defs
pub mod Loop
pub mod Occur
pub mod Rotation
pub mod Tests
