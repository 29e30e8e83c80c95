-- ===== src/UserInterface.antt =====
-- The events of the user interface (web-phalcon/public/js/netgraphz/{ui,renderer}.js).
pub mod Dispatch
pub mod Targets
pub mod Search
pub mod Toasts
pub mod Notices
pub mod Menus
pub mod MenuRuns
pub mod MenuTests
pub mod Tests
