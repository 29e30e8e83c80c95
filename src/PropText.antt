-- ===== src/PropText.antt =====
-- The links of a panel, whose texts name properties of a node or link
-- (web-phalcon/public/js/netgraphz/graph_utils.js).
pub mod Defs
pub mod Links
pub mod Panel
pub mod Tests
pub mod Words
pub mod Render
