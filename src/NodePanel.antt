-- ===== src/NodePanel.antt =====
-- The panel that shows a node (web-phalcon/public/js/netgraphz/ui.panel.js).
pub mod State
pub mod Events
pub mod Waits
pub mod Invariant
pub mod Runs
pub mod Tests
