-- ===== src/Server/Tests.antt =====
-- The console's own state on small inputs.
use mono_bucket.Base.{ℕ, ◌≡◌, refl, true, false, [], ◌∷◌, str_eq, arith, lookup, insert}
use mono_bucket.Core.Identity.{administrator, read_access}
use mono_bucket.Server.History.{Reading, new_history, samples}
use mono_bucket.Server.History.Laws.{record_readings, differences, samples-record_readings}
use mono_bucket.Server.Sessions.{
  Principal, SessionStore, session_ttl_seconds, resolve_at, close_user,
}
use mono_bucket.Server.Sessions.Laws.{opened, changes, resolve_at-close_user}
use mono_bucket.Server.Throttle.{
  new_throttle, blocked_at, record_failures, blocked_at-record_failures,
}

abbrev ann : Principal
ann = record {
  username = "ann";
  role = administrator;
  buckets = record { fallback = read_access; exceptions = [] };
}

abbrev bob : Principal
bob = record ann { username = "bob" }

abbrev signed_in : SessionStore
signed_in = record {
  sessions =
      ("t1", record { principal = ann; expires_at = 50000 })
      ∷ ("t2", record { principal = bob; expires_at = 50000 })
      ∷ [];
  ttl_seconds = session_ttl_seconds;
}

resolve_at-close_user_example : str_eq bob.username "ann" ≡ false
unfolding resolve_at close_user changes lookup insert
resolve_at-close_user_example =
    resolve_at-close_user "ann" "t3" 7001 signed_in (opened "t3" bob 7000 ∷ []) bob refl (refl, tt)
      refl

blocked_at-record_failures_example :
    (blocked_at 130 (
      record_failures
        (100 ∷ 101 ∷ 102 ∷ 103 ∷ 104 ∷ 105 ∷ 106 ∷ 107 ∷ 108 ∷ 109 ∷ [])
        new_throttle)).0
    ≡ true
blocked_at-record_failures_example =
    blocked_at-record_failures new_throttle 100
      (101 ∷ 102 ∷ 103 ∷ 104 ∷ 105 ∷ 106 ∷ 107 ∷ 108 ∷ 109 ∷ []) 130 (omega arith)
      (
        omega arith,
        (
          omega arith,
          (
            omega arith,
            (
              omega arith,
              (omega arith, (omega arith, (omega arith, (omega arith, (omega arith, tt))))),
            ),
          ),
        ),
      )

abbrev reading_at : ℕ → Reading
reading_at n = record {
  at_ms = n;
  requests = n;
  succeeded = n;
  client_errors = 0;
  server_errors = 0;
  shed = 0;
  bytes_in = 0;
  bytes_out = 0;
  cache_hits = 0;
  cache_misses = 0;
  objects = 0;
  stored_bytes = 0;
  resident_bytes = 0;
  cache_bytes = 0;
  io_queued = 0;
  io_active = 0;
  connections = 0;
}

samples-record_readings_example :
    samples (
      record_readings
        (reading_at 1 ∷ reading_at 3 ∷ reading_at 6 ∷ reading_at 10 ∷ [])
        (new_history 2))
    ≡ differences (reading_at 3) (reading_at 6 ∷ reading_at 10 ∷ [])
unfolding differences
samples-record_readings_example =
    samples-record_readings 2 (reading_at 1) (reading_at 3 ∷ reading_at 6 ∷ reading_at 10 ∷ [])
