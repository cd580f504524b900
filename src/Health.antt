-- ===== src/Health.antt =====
-- src/health/scoring.rs: the health score of a symbol.
pub mod Scoring
pub mod Score
