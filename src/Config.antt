-- ===== src/Config.antt =====
-- src/config.rs: the settings and the checks that they pass before the service starts.
pub mod Settings
pub mod Validate
pub mod Bounds
pub mod Load
pub mod Loaded
