-- ===== src/Store.antt =====
-- The store of nodes and links (web-phalcon/public/js/netgraphz/store.js).
pub mod Defs
pub mod Invariant
pub mod Update
pub mod Batch
pub mod Query
pub mod Tests
