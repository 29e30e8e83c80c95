-- ===== src/LinkPanel.antt =====
-- The panel of a link (web-phalcon/public/js/netgraphz/ui.link_panel.js).
pub mod State
pub mod Events
pub mod Timers
pub mod Invariant
pub mod Runs
pub mod Texts
pub mod View
pub mod Tests
