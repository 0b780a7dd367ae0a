-- ===== src/Server/History.antt =====
-- backend/src/server/metrics_history.hpp and metrics_history.cpp: the samples of the console's graphs, in
-- a ring.
pub mod Buffer
pub mod Laws
use mono_bucket.Base.{
  ℕ, zero, suc, ◌+◌, ◌-◌, ◌%◌, Bool, true, false, Option, none, some, List, [], ◌∷◌, ◌++◌, leb,
  ◌==◌, if◌then◌else◌, take, drop,
}
use mono_bucket.Server.History.Buffer.{Ring, new_ring, push, contents}

-- MetricsHistory::Reading
pub record Reading : Type 0 where
  pub at_ms : ℕ
  pub requests : ℕ
  pub succeeded : ℕ
  pub client_errors : ℕ
  pub server_errors : ℕ
  pub shed : ℕ
  pub bytes_in : ℕ
  pub bytes_out : ℕ
  pub cache_hits : ℕ
  pub cache_misses : ℕ
  pub objects : ℕ
  pub stored_bytes : ℕ
  pub resident_bytes : ℕ
  pub cache_bytes : ℕ
  pub io_queued : ℕ
  pub io_active : ℕ
  pub connections : ℕ

-- MetricsHistory::Sample
pub record Sample : Type 0 where
  pub at_ms : ℕ
  pub span_ms : ℕ
  pub requests : ℕ
  pub succeeded : ℕ
  pub client_errors : ℕ
  pub server_errors : ℕ
  pub shed : ℕ
  pub bytes_in : ℕ
  pub bytes_out : ℕ
  pub cache_hits : ℕ
  pub cache_misses : ℕ
  pub objects : ℕ
  pub stored_bytes : ℕ
  pub resident_bytes : ℕ
  pub cache_bytes : ℕ
  pub io_queued : ℕ
  pub io_active : ℕ
  pub connections : ℕ

unfoldable pub delta : ℕ → ℕ → ℕ
delta current previous = if leb previous current then current - previous else 0

unfoldable pub sample_of : Reading → Reading → Sample
unfolding delta
sample_of previous reading = record {
  at_ms = reading.at_ms;
  span_ms = reading.at_ms - previous.at_ms;
  requests = delta reading.requests previous.requests;
  succeeded = delta reading.succeeded previous.succeeded;
  client_errors = delta reading.client_errors previous.client_errors;
  server_errors = delta reading.server_errors previous.server_errors;
  shed = delta reading.shed previous.shed;
  bytes_in = delta reading.bytes_in previous.bytes_in;
  bytes_out = delta reading.bytes_out previous.bytes_out;
  cache_hits = delta reading.cache_hits previous.cache_hits;
  cache_misses = delta reading.cache_misses previous.cache_misses;
  objects = reading.objects;
  stored_bytes = reading.stored_bytes;
  resident_bytes = reading.resident_bytes;
  cache_bytes = reading.cache_bytes;
  io_queued = reading.io_queued;
  io_active = reading.io_active;
  connections = reading.connections;
}

-- `previous_` where `hasPrevious_`.
pub record MetricsHistory : Type 0 where
  pub ring : Ring Sample
  pub previous : Option Reading

unfoldable pub no_sample : Sample
no_sample = record {
  at_ms = 0;
  span_ms = 0;
  requests = 0;
  succeeded = 0;
  client_errors = 0;
  server_errors = 0;
  shed = 0;
  bytes_in = 0;
  bytes_out = 0;
  cache_hits = 0;
  cache_misses = 0;
  objects = 0;
  stored_bytes = 0;
  resident_bytes = 0;
  cache_bytes = 0;
  io_queued = 0;
  io_active = 0;
  connections = 0;
}

unfoldable pub new_history : ℕ → MetricsHistory
new_history capacity = record {
  ring = new_ring no_sample (if capacity == 0 then 1 else capacity);
  previous = none;
}

abbrev pub record_from : Option Reading → Reading → MetricsHistory → MetricsHistory
record_from none reading h = record h { previous = some reading }
record_from (some previous) reading h = record {
  ring = push (sample_of previous reading) h.ring;
  previous = some reading;
}

unfoldable pub record_reading : Reading → MetricsHistory → MetricsHistory
record_reading reading h = record_from h.previous reading h

unfoldable pub samples : MetricsHistory → List Sample
samples h = contents h.ring
