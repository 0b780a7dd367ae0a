-- ===== src/Cache/Fallback.antt =====
-- backend/src/cache/fallback_cache.hpp and fallback_cache.cpp: two tiers and a circuit breaker. The
-- tiers are parameters: the local one does not throw, the shared one may, and a call that throws says no
-- more. The clock is an argument, in milliseconds, read where the code reads it. The log and the name
-- are left out, and the statistics of the local tier that `stats` passes on.
pub mod Cooldown
pub mod Recovery
pub mod Probe
mod Tests
use mono_bucket.Base.{
  ℕ, ◌+◌, ◌*◌, ◌%◌, ◌^◌, String, Bool, true, false, ◌||◌, Option, none, some, ltb, ==_iff, ◌==◌,
  if◌then◌else◌, Bytes, ℤ, pos, negsuc, add64, Result, ok, err,
}
use Prim.Native.Nat.{min}

-- FallbackCache::Options
pub record FallbackOptions : Type 0 where
  pub failure_threshold : ℕ
  pub initial_cooldown : ℕ
  pub max_cooldown : ℕ
  pub local_ttl_cap : ℕ

-- What the mutex `breaker_` guards.
pub record Breaker : Type 0 where
  pub consecutive_failures : ℕ
  pub probe_in_flight : Bool
  pub cooldown : ℕ
  pub open_until : ℕ

abbrev pub new_breaker : FallbackOptions → Breaker
new_breaker o = record {
  consecutive_failures = 0;
  probe_in_flight = false;
  cooldown = o.initial_cooldown;
  open_until = 0;
}

-- Seconds; 0 is `kNoExpiry`.
unfoldable pub local_ttl : FallbackOptions → ℤ → ℤ
local_ttl o (pos requested) =
    if requested == 0 then pos o.local_ttl_cap else pos (min requested o.local_ttl_cap)
local_ttl o (negsuc n) = negsuc n

unfoldable pub allow_shared : FallbackOptions → ℕ → Breaker → Bool × Breaker
allow_shared o now b =
    if ltb b.consecutive_failures o.failure_threshold
    then (true, b)
    else if ltb now b.open_until
    then (false, b)
    else if b.probe_in_flight
    then (false, b)
    else (true, record b { probe_in_flight = true })

unfoldable pub record_success : FallbackOptions → Breaker → Breaker
record_success o b = record b {
  consecutive_failures = 0;
  probe_in_flight = false;
  cooldown = o.initial_cooldown;
}

-- `consecutiveFailures_` is an `unsigned`.
unfoldable pub record_failure : FallbackOptions → ℕ → Breaker → Breaker
record_failure o now b =
    let was_healthy = ltb b.consecutive_failures o.failure_threshold in
    let failures = (b.consecutive_failures + 1) % 2 ^ 32 in
    let cooldown =
      if was_healthy then o.initial_cooldown else min (b.cooldown * 2) o.max_cooldown in
    if ltb failures o.failure_threshold
    then record b { consecutive_failures = failures; probe_in_flight = false }
    else record b {
      consecutive_failures = failures;
      probe_in_flight = false;
      cooldown = cooldown;
      open_until = now + cooldown;
    }

unfoldable pub shared_healthy : FallbackOptions → Breaker → Bool
shared_healthy o b = ltb b.consecutive_failures o.failure_threshold

-- The tier of this process.
pub record LocalTier (L : Type 0) : Type 0 where
  pub get_value : String → L → Option Bytes × L
  pub set_value : String → Bytes → ℤ → L → L
  pub del_value : String → L → Bool × L
  pub evict_to : ℕ → L → ℕ × L
  pub clear_all : L → L

-- The tier that may throw.
pub record SharedTier (S : Type 0) : Type 0 where
  pub get_value : String → S → Result (Unit {0}) (Option Bytes) × S
  pub set_value : String → Bytes → ℤ → S → Result (Unit {0}) (Unit {0}) × S
  pub del_value : String → S → Result (Unit {0}) Bool × S
  pub clear_all : S → Result (Unit {0}) (Unit {0}) × S

pub record FallbackCache (S L : Type 0) : Type 0 where
  pub options : FallbackOptions
  pub shared : S
  pub local : L
  pub breaker : Breaker
  pub hits : ℕ
  pub misses : ℕ
  pub errors : ℕ
  pub bypassed : ℕ

module _ {S L : Type 0} where
  abbrev pub new_fallback_cache : FallbackOptions → S → L → FallbackCache S L
  new_fallback_cache o s l = record {
    options = o;
    shared = s;
    local = l;
    breaker = new_breaker o;
    hits = 0;
    misses = 0;
    errors = 0;
    bypassed = 0;
  }

  -- The counters.
  abbrev pub add_hit : FallbackCache S L → FallbackCache S L
  add_hit c = record c { hits = add64 c.hits 1 }

  abbrev pub add_miss : FallbackCache S L → FallbackCache S L
  add_miss c = record c { misses = add64 c.misses 1 }

  abbrev pub add_bypass : FallbackCache S L → FallbackCache S L
  add_bypass c = record c { bypassed = add64 c.bypassed 1 }

  abbrev pub call_succeeded : FallbackCache S L → FallbackCache S L
  unfolding record_success
  call_succeeded c = record c { breaker = record_success c.options c.breaker }

  -- recordFailure, with its counter.
  abbrev pub call_failed : ℕ → FallbackCache S L → FallbackCache S L
  unfolding record_failure
  call_failed now c = record c {
    breaker = record_failure c.options now c.breaker;
    errors = add64 c.errors 1;
  }

module _ {S L : Type 0} (shared : SharedTier S) (local : LocalTier L) where
  -- What follows the answer of the shared tier to a `get`.
  abbrev pub shared_got :
      String
      → ℕ
      → Result (Unit {0}) (Option Bytes) × S
      → FallbackCache S L
      → Option Bytes × FallbackCache S L
  unfolding call_succeeded call_failed
  shared_got key ended (err e, s) c = (none, add_miss (call_failed ended (record c { shared = s })))
  shared_got key ended (ok none, s) c = (none, add_miss (call_succeeded (record c { shared = s })))
  shared_got key ended (ok (some value), s) c =
      let d = call_succeeded (record c { shared = s }) in
      (
        some value,
        add_hit
            (record d { local = local.set_value key value (pos d.options.local_ttl_cap) d.local }),
      )

  abbrev pub allowed_get :
      String → ℕ → Bool × Breaker → FallbackCache S L → Option Bytes × FallbackCache S L
  allowed_get key ended (false, b) c = (none, add_miss (add_bypass (record c { breaker = b })))
  allowed_get key ended (true, b) c =
      shared_got key ended (shared.get_value key c.shared) (record c { breaker = b })

  abbrev pub local_got :
      String → ℕ → ℕ → Option Bytes × L → FallbackCache S L → Option Bytes × FallbackCache S L
  unfolding allow_shared
  local_got key started ended (some value, l) c = (some value, add_hit (record c { local = l }))
  local_got key started ended (none, l) c =
      allowed_get key ended (allow_shared c.options started c.breaker) (record c { local = l })

  unfoldable pub fallback_get :
      String → ℕ → ℕ → FallbackCache S L → Option Bytes × FallbackCache S L
  unfolding local_got
  fallback_get key started ended c = local_got key started ended (local.get_value key c.local) c

  -- What follows the answer of the shared tier to a call that changes it.
  abbrev pub shared_done :
      {A : Type 0} → ℕ → Result (Unit {0}) A × S → FallbackCache S L → FallbackCache S L
  unfolding call_succeeded call_failed
  shared_done ended (err e, s) c = call_failed ended (record c { shared = s })
  shared_done ended (ok a, s) c = call_succeeded (record c { shared = s })

  abbrev pub allowed_set :
      String → Bytes → ℤ → ℕ → Bool × Breaker → FallbackCache S L → FallbackCache S L
  allowed_set key value ttl ended (false, b) c = add_bypass (record c { breaker = b })
  allowed_set key value ttl ended (true, b) c =
      shared_done ended (shared.set_value key value ttl c.shared) (record c { breaker = b })

  unfoldable pub fallback_set : String → Bytes → ℤ → ℕ → ℕ → FallbackCache S L → FallbackCache S L
  unfolding local_ttl allow_shared
  fallback_set key value ttl started ended c =
      allowed_set key value ttl ended (allow_shared c.options started c.breaker)
        (record c { local = local.set_value key value (local_ttl c.options ttl) c.local })

  abbrev pub had : Bool → Result (Unit {0}) Bool → Bool
  had local_had (err e) = local_had
  had local_had (ok shared_had) = local_had || shared_had

  abbrev pub allowed_del :
      String → Bool → ℕ → Bool × Breaker → FallbackCache S L → Bool × FallbackCache S L
  allowed_del key local_had ended (false, b) c = (local_had, add_bypass (record c { breaker = b }))
  allowed_del key local_had ended (true, b) c =
      let answer = shared.del_value key c.shared in
      (had local_had answer.0, shared_done ended answer (record c { breaker = b }))

  unfoldable pub fallback_del : String → ℕ → ℕ → FallbackCache S L → Bool × FallbackCache S L
  unfolding allow_shared
  fallback_del key started ended c =
      let answer = local.del_value key c.local in
      allowed_del key answer.0 ended (allow_shared c.options started c.breaker)
        (record c { local = answer.1 })

  unfoldable pub fallback_evict : ℕ → FallbackCache S L → ℕ × FallbackCache S L
  fallback_evict budget c =
      let answer = local.evict_to budget c.local in (answer.0, record c { local = answer.1 })

  abbrev pub allowed_clear : ℕ → Bool × Breaker → FallbackCache S L → FallbackCache S L
  allowed_clear ended (false, b) c = record c { breaker = b }
  allowed_clear ended (true, b) c =
      shared_done ended (shared.clear_all c.shared) (record c { breaker = b })

  unfoldable pub fallback_clear : ℕ → ℕ → FallbackCache S L → FallbackCache S L
  unfolding allow_shared
  fallback_clear started ended c =
      allowed_clear ended (allow_shared c.options started c.breaker)
        (record c { local = local.clear_all c.local })
