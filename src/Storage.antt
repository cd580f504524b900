-- ===== src/Storage.antt =====
-- src/storage
pub mod Redis
pub mod Postgres
