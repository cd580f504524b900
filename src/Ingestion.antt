-- ===== src/Ingestion.antt =====
-- src/ingestion: the events between a source and the pipeline, and the pipeline itself.
pub mod Event
pub mod Pipeline
pub mod Outcomes
pub mod Sound
pub mod Replay
pub mod Live
pub mod Connection
