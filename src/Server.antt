-- ===== src/Server.antt =====
-- The console's own state (backend/src/server): sessions, the limit on failed logins, and the samples of
-- the graphs.
pub mod Sessions
pub mod Throttle
pub mod History
mod Tests
