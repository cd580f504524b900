-- ===== src/Telemetry.antt =====
-- src/telemetry: the counters that the service keeps of itself.
pub mod Counters
pub mod Totals
