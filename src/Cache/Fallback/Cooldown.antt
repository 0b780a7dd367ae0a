-- ===== src/Cache/Fallback/Cooldown.antt =====
-- backend/src/cache/fallback_cache.cpp: the breaker under any interleaving of calls.
use mono_bucket.Base.{
  ℕ, zero, suc, ◌+◌, ◌*◌, ◌%◌, ◌^◌, ◌≤◌, ◌<◌, ◌≡◌, refl, ◌∙◌, sym, ap, Bool, true, false, List, [],
  ◌∷◌, ltb, if◌then◌else◌, All, arith,
}
use Prim.Native.Nat.{min}
use native.Mathlib.Nat.{pow-suc, mul_assoc}
use mono_bucket.Cache.Fallback.{
  FallbackOptions, Breaker, new_breaker, allow_shared, record_success, record_failure,
}

-- What happens to the breaker: a call asks whether it may touch the shared tier, and a call that was
-- allowed to succeeds or fails, at a time. Calls run at once, so that any order may occur.
pub data BreakerEvent : Type 0 where
  asked : ℕ → BreakerEvent
  answered : BreakerEvent
  broke : ℕ → BreakerEvent

unfoldable pub breaker_event : FallbackOptions → BreakerEvent → Breaker → Breaker
unfolding allow_shared record_success record_failure
breaker_event o (asked now) b = (allow_shared o now b).1
breaker_event o answered b = record_success o b
breaker_event o (broke now) b = record_failure o now b

unfoldable pub run_breaker : FallbackOptions → List BreakerEvent → Breaker → Breaker
unfolding breaker_event
run_breaker o [] b = b
run_breaker o (e ∷ events) b = run_breaker o events (breaker_event o e b)

-- The window stays within its bounds, and ends no later than the longest window after the last failure;
-- a probe is out only while the breaker is open.
pub record IsSane (o : FallbackOptions) (latest : ℕ) (b : Breaker) : Type 0 where
  pub at_least : o.initial_cooldown ≤ b.cooldown
  pub at_most : b.cooldown ≤ o.max_cooldown
  pub ends : b.open_until ≤ latest + o.max_cooldown
  pub probing : b.probe_in_flight ≡ true → o.failure_threshold ≤ b.consecutive_failures

abbrev pub IsBy : ℕ → BreakerEvent → Type 0
IsBy latest (asked now) = Unit
IsBy latest answered = Unit
IsBy latest (broke now) = now ≤ latest

pub allow_shared-IsSane :
    (o : FallbackOptions) (latest now : ℕ) (b : Breaker)
    → IsSane o latest b
    → IsSane o latest (allow_shared o now b).1
unfolding allow_shared
allow_shared-IsSane o latest now b h =
    go (ltb b.consecutive_failures o.failure_threshold) (ltb now b.open_until) b.probe_in_flight
      (λ e. ground arith)
  where
    go :
        (closed early probing : Bool)
        → (closed ≡ false → o.failure_threshold ≤ b.consecutive_failures)
        → let r : Bool × Breaker =
            if closed
            then (true, b)
            else if early
            then (false, b)
            else if probing
            then (false, b)
            else (true, record b { probe_in_flight = true }) in
          IsSane o latest r.1
    go true early probing f = h
    go false true probing f = h
    go false false true f = h
    go false false false f = record {
      at_least = h.at_least;
      at_most = h.at_most;
      ends = h.ends;
      probing = λ _. f refl;
    }

pub record_success-IsSane :
    (o : FallbackOptions) (latest : ℕ) (b : Breaker)
    → o.initial_cooldown ≤ o.max_cooldown
    → IsSane o latest b
    → IsSane o latest (record_success o b)
unfolding record_success
record_success-IsSane o latest b small h = record {
  at_least = omega arith;
  at_most = small;
  ends = h.ends;
  probing = λ e. absurd (grind arith);
}

pub record_failure-IsSane :
    (o : FallbackOptions) (latest now : ℕ) (b : Breaker)
    → o.initial_cooldown ≤ o.max_cooldown
    → now ≤ latest
    → IsSane o latest b
    → IsSane o latest (record_failure o now b)
unfolding record_failure
record_failure-IsSane o latest now b small by h =
    go (ltb ((b.consecutive_failures + 1) % 2 ^ 32) o.failure_threshold)
      (if ltb b.consecutive_failures o.failure_threshold
        then o.initial_cooldown
        else min (b.cooldown * 2) o.max_cooldown)
      (ground (arith, h.at_least)) (ground (arith, h.at_most))
  where
    go :
        (few : Bool) (cooldown : ℕ)
        → o.initial_cooldown ≤ cooldown
        → cooldown ≤ o.max_cooldown
        → IsSane o latest (
            if few
            then record b {
              consecutive_failures = (b.consecutive_failures + 1) % 2 ^ 32;
              probe_in_flight = false;
            }
            else record b {
              consecutive_failures = (b.consecutive_failures + 1) % 2 ^ 32;
              probe_in_flight = false;
              cooldown = cooldown;
              open_until = now + cooldown;
            })
    go true cooldown low high = record {
      at_least = h.at_least;
      at_most = h.at_most;
      ends = h.ends;
      probing = λ e. absurd (grind arith);
    }
    go false cooldown low high = record {
      at_least = low;
      at_most = high;
      ends = omega (arith, by, high);
      probing = λ e. absurd (grind arith);
    }

breaker_event-IsSane :
    (o : FallbackOptions) (latest : ℕ) (e : BreakerEvent) (b : Breaker)
    → o.initial_cooldown ≤ o.max_cooldown
    → IsBy latest e
    → IsSane o latest b
    → IsSane o latest (breaker_event o e b)
unfolding breaker_event
breaker_event-IsSane o latest (asked now) b small by h = allow_shared-IsSane o latest now b h
breaker_event-IsSane o latest answered b small by h = record_success-IsSane o latest b small h
breaker_event-IsSane o latest (broke now) b small by h =
    record_failure-IsSane o latest now b small by h

-- Where the first window is at most the longest, any interleaving of calls leaves the window between the
-- two, ending at most the longest window after the last failure, and a probe out only while the breaker is
-- open.
pub run_breaker-IsSane :
    (o : FallbackOptions) (latest : ℕ) (events : List BreakerEvent) (b : Breaker)
    → o.initial_cooldown ≤ o.max_cooldown
    → All (IsBy latest) events
    → IsSane o latest b
    → IsSane o latest (run_breaker o events b)
unfolding run_breaker
run_breaker-IsSane o latest [] b small by h = h
run_breaker-IsSane o latest (e ∷ events) b small (by, bys) h =
    run_breaker-IsSane o latest events (breaker_event o e b) small bys
      (breaker_event-IsSane o latest e b small by h)

-- Failures that follow one another at one time.
unfoldable pub fail_times : FallbackOptions → ℕ → ℕ → Breaker → Breaker
unfolding record_failure
fail_times o now zero b = b
fail_times o now (suc n) b = record_failure o now (fail_times o now n b)

fail_times-below :
    (o : FallbackOptions) (now n : ℕ)
    → n < o.failure_threshold
    → o.failure_threshold < 2 ^ 32
    → (fail_times o now n (new_breaker o)).consecutive_failures ≡ n
unfolding fail_times record_failure
fail_times-below o now zero h w = refl
fail_times-below o now (suc n) h w =
    let c = fail_times-below o now n (omega arith) w in
    let below : ltb ((n + 1) % 2 ^ 32) o.failure_threshold ≡ true = ground arith in
    rw (c, below) (omega arith)

twice_power : (i n : ℕ) → i * 2 ^ suc n ≡ (i * 2 ^ n) * 2
twice_power i n = ap (λ p. i * p) (pow-suc 2 n) ∙ sym (mul_assoc i (2 ^ n) 2)

-- The failures, the window and its end.
abbrev pub IsOpen : FallbackOptions → ℕ → ℕ → ℕ → Breaker → Type 0
IsOpen o now failures n b =
    (b.consecutive_failures ≡ failures)
    × (b.cooldown ≡ min (o.initial_cooldown * 2 ^ n) o.max_cooldown)
    × (b.open_until ≡ now + b.cooldown)

opens :
    (o : FallbackOptions) (now k : ℕ) (b : Breaker)
    → o.initial_cooldown ≤ o.max_cooldown
    → suc k ≡ o.failure_threshold
    → suc k < 2 ^ 32
    → b.consecutive_failures ≡ k
    → IsOpen o now (suc k) 0 (record_failure o now b)
unfolding record_failure
opens o now k b small t w c =
    let few : ltb ((k + 1) % 2 ^ 32) o.failure_threshold ≡ false = ground arith in
    let healthy : ltb k o.failure_threshold ≡ true = ground arith in
    rw (c, few, healthy) (omega arith, omega arith, refl)

doubles :
    (o : FallbackOptions) (now k n : ℕ) (b : Breaker)
    → o.failure_threshold ≤ k
    → suc k < 2 ^ 32
    → IsOpen o now k n b
    → IsOpen o now (suc k) (suc n) (record_failure o now b)
unfolding record_failure
doubles o now k n b t w (c, d, u) =
    let few : ltb ((k + 1) % 2 ^ 32) o.failure_threshold ≡ false = ground arith in
    let healthy : ltb k o.failure_threshold ≡ false = ground arith in
    rw (c, few, healthy, d) (omega arith, omega (arith, twice_power o.initial_cooldown n), refl)

fail_times-IsOpen :
    (o : FallbackOptions) (now k n : ℕ)
    → o.initial_cooldown ≤ o.max_cooldown
    → 0 < o.failure_threshold
    → k ≡ o.failure_threshold + n
    → k < 2 ^ 32
    → IsOpen o now k n (fail_times o now k (new_breaker o))
unfolding fail_times
fail_times-IsOpen o now zero n small some e w = absurd (omega arith)
fail_times-IsOpen o now (suc k) zero small some e w =
    opens o now k (fail_times o now k (new_breaker o)) small (omega arith) w
      (fail_times-below o now k (omega arith) (omega arith))
fail_times-IsOpen o now (suc k) (suc n) small some e w =
    doubles o now k n (fail_times o now k (new_breaker o)) (omega arith) w
      (fail_times-IsOpen o now k n small some (omega arith) (omega arith))

-- On a new breaker whose first window is at most the longest, with calls that were all let out while the
-- breaker was closed and no probe among them: where as many fail, at one time, as the threshold and n more,
-- the window is the first one doubled n times, up to the longest, and ends that much after the failures.
pub fail_times-doubles :
    (o : FallbackOptions) (now n : ℕ)
    → o.initial_cooldown ≤ o.max_cooldown
    → 0 < o.failure_threshold
    → o.failure_threshold + n < 2 ^ 32
    → IsOpen o now
        (o.failure_threshold + n)
        n
        (fail_times o now (o.failure_threshold + n) (new_breaker o))
fail_times-doubles o now n small some w =
    fail_times-IsOpen o now (o.failure_threshold + n) n small some refl w
