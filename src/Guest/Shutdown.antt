-- ===== src/Guest/Shutdown.antt =====
-- guest/src/shutdown.rs and the watchdog of guest/src/main.rs: the trigger, the wipe and the
-- power-off.
pub mod Trigger
pub mod Interlock
pub mod Watchdog
pub mod Scrub
pub mod Wipe
