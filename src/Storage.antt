-- ===== src/Storage.antt =====
-- The storage layer (backend/src/storage).
pub mod Keyspace
pub mod Errors
pub mod Codec
pub mod Quota
pub mod Records
pub mod Metadata
pub mod Engine
mod Tests
