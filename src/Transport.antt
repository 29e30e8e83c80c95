-- ===== src/Transport.antt =====
-- Requests to the server and the status that is fetched first
-- (web-phalcon/public/js/netgraphz/{fetcher,status}.js).
pub mod Fetcher
pub mod Calls
pub mod Status
pub mod Handlers
pub mod Tests
