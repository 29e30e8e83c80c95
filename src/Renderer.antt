-- ===== src/Renderer.antt =====
-- The renderer of the graph (web-phalcon/public/js/netgraphz/renderer.js).
pub mod Status
pub mod Laws
pub mod UpdateNode
pub mod Changes
pub mod Batch
pub mod Sync
pub mod Tests
pub mod Elements
pub mod Joins
pub mod Edges
pub mod Gestures
pub mod Taps
pub mod Layout
pub mod GestureTests
