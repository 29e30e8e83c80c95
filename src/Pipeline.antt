-- ===== src/Pipeline.antt =====
-- A notification on its way from the event handler to the browser's store.
pub mod Defs
pub mod Shown
pub mod Stored
pub mod Tests
