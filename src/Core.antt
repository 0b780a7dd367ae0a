-- ===== src/Core.antt =====
-- The core layer (backend/src/core).
pub mod Identity
