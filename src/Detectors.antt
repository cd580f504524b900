-- ===== src/Detectors.antt =====
-- src/detectors: the anomaly rules and the engine that runs them.
pub mod Context
pub mod Thresholds
pub mod TradeBurst
pub mod QuoteStuck
pub mod SequenceGap
pub mod Engine
pub mod Cooldown
pub mod Found
pub mod Agreement
pub mod Isolation
