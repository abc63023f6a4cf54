-- ===== src/Selfcheck.antt =====
-- The verdict of selfcheck/ on the system's own delivery.
pub mod Health
pub mod Heartbeat
