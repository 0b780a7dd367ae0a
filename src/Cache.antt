-- ===== src/Cache.antt =====
-- backend/src/cache: the in-memory backend, and the two tiers with a circuit breaker. The Redis backend
-- is outside this development.
pub mod Shard
pub mod Pool
pub mod Fallback
mod Tests
