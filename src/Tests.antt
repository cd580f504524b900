-- ===== src/Tests.antt =====
-- Concrete runs of the program, at one instance of what it takes from other crates.
pub mod Toy
pub mod Samples
pub mod Readers
mod DomainTests
mod BookTests
mod StateTests
mod DetectorTests
mod HealthTests
mod PipelineTests
mod SupervisorTests
mod SourceTests
mod StorageTests
