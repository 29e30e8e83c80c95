-- ===== src/IcingaScripts.antt =====
-- The scripts that Icinga runs (icinga/scripts/notify_icinga_host.js,
-- icinga/scripts/notify_icinga_service.js).
pub mod Defs
pub mod Lengths
pub mod Delivery
pub mod Tests
