-- ===== src/Watchdog.antt =====
-- The watchdog of a rented machine, src/model_forensics/runpod_watchdog.py.
pub mod Limits
pub mod Live
pub mod Stop
pub mod Monitor
pub mod Affordable
pub mod Deadline
pub mod Escapes
pub mod FailSafe
pub mod Limit
pub mod Handover
pub mod Tests
