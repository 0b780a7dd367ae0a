-- ===== src/Cache/Fallback/Tests.antt =====
-- backend/src/cache/fallback_cache.cpp: an outage of the shared tier, and its end.
use mono_bucket.Base.{
  ℕ, zero, suc, ◌≡◌, refl, true, false, none, some, Option, List, [], ◌∷◌, Bytes, codes, Dict,
  arith, Result, ok, err,
}
use mono_bucket.Cache.Fallback.{
  FallbackOptions, LocalTier, SharedTier, new_breaker, new_fallback_cache, fallback_get, shared_got,
  shared_healthy,
}
use mono_bucket.Cache.Fallback.Cooldown.{
  asked, answered, broke, IsSane, IsOpen, run_breaker, run_breaker-IsSane, fail_times,
  fail_times-doubles,
}
use mono_bucket.Cache.Fallback.Probe.{fallback_get-recovers}
use mono_bucket.Cache.Fallback.Recovery.{Call, get_call, fallback_calls}

-- The defaults of `FallbackCache::Options`.
abbrev usual : FallbackOptions
usual = record {
  failure_threshold = 3;
  initial_cooldown = 500;
  max_cooldown = 30000;
  local_ttl_cap = 5;
}

abbrev empty_tier : LocalTier (Dict Bytes)
empty_tier = record {
  get_value = λ key d. (none, d);
  set_value = λ key value ttl d. d;
  del_value = λ key d. (false, d);
  evict_to = λ budget d. (0, d);
  clear_all = λ d. [];
}

-- A tier that fails so many calls, and then answers.
abbrev got : ℕ → Result (Unit {0}) (Option Bytes) × ℕ
got zero = (ok (some (codes "v")), 0)
got (suc n) = (err tt, n)

abbrev outage : SharedTier ℕ
outage = record {
  get_value = λ key n. got n;
  set_value = λ key value ttl n. (ok tt, n);
  del_value = λ key n. (ok false, n);
  clear_all = λ n. (ok tt, n);
}

abbrev three_gets : List Call
three_gets = get_call "k" 1 10 ∷ get_call "k" 11 20 ∷ get_call "k" 21 30 ∷ []

fallback_get-recovers_example :
    let c = fallback_calls outage empty_tier three_gets (new_fallback_cache usual 3 []) in
    let d = fallback_get outage empty_tier "k" 30030 30031 c in
    (d.0 ≡ some (codes "v")) × (shared_healthy usual d.1.breaker ≡ true)
unfolding fallback_calls shared_got
fallback_get-recovers_example =
    fallback_get-recovers outage empty_tier usual 3 [] three_gets 30 "k" 30030 30031
      (some (codes "v")) 0 (omega arith) (omega arith)
      (omega arith, (omega arith, (omega arith, tt))) (omega arith) refl refl

run_breaker-IsSane_example : IsSane usual 30 (
    run_breaker usual
      (broke 10 ∷ broke 20 ∷ broke 30 ∷ asked 600 ∷ answered ∷ [])
      (new_breaker usual))
run_breaker-IsSane_example =
    run_breaker-IsSane usual 30 (broke 10 ∷ broke 20 ∷ broke 30 ∷ asked 600 ∷ answered ∷ [])
      (new_breaker usual) (omega arith) (omega arith, (omega arith, (omega arith, (tt, (tt, tt)))))
      (record {
        at_least = omega arith;
        at_most = omega arith;
        ends = omega arith;
        probing = λ e. absurd (grind arith);
      })

-- Nine calls that fail together: the window is the longest one at once.
fail_times-doubles_example : IsOpen usual 7 9 6 (fail_times usual 7 9 (new_breaker usual))
fail_times-doubles_example = fail_times-doubles usual 7 6 (omega arith) (omega arith) (omega arith)
