-- ===== src/Cache/Fallback/Probe.antt =====
-- backend/src/cache/fallback_cache.cpp: the shared tier is asked again.
use mono_bucket.Base.{
  ℕ, ◌+◌, ◌≤◌, ◌<◌, ◌≡◌, refl, sym, subst, inl, inr, String, Bool, true, false, Option, none, some,
  List, ltb, All, Bytes, ok, arith, Bool-cases,
}
use mono_bucket.Cache.Fallback.{
  FallbackOptions, Breaker, new_breaker, allow_shared, record_success, shared_healthy, LocalTier,
  SharedTier, FallbackCache, new_fallback_cache, shared_got, allowed_get, local_got, fallback_get,
}
use mono_bucket.Cache.Fallback.Recovery.{
  Call, EndsBy, IsCalm, fallback_calls, fallback_calls-IsQuiet,
}

-- A breaker with no probe out lets a call through once its window has ended.
allow_shared-late :
    (o : FallbackOptions) (latest now : ℕ) (b : Breaker)
    → IsCalm o latest b
    → latest + o.max_cooldown ≤ now
    → (allow_shared o now b).0 ≡ true
unfolding allow_shared
allow_shared-late o latest now b h late =
    elim (Bool-cases (ltb b.consecutive_failures o.failure_threshold)) [
      | inl t ↦ rw t refl
      | inr f ↦
          let over : ltb now b.open_until ≡ false = ground (arith, h.is_sane.ends) in
          rw (f, over, h.no_probe) refl
    ]

new_breaker-IsCalm :
    (o : FallbackOptions) (latest : ℕ)
    → o.initial_cooldown ≤ o.max_cooldown
    → IsCalm o latest (new_breaker o)
new_breaker-IsCalm o latest small = record {
  is_sane = record {
    at_least = omega arith;
    at_most = small;
    ends = omega arith;
    probing = λ e. absurd (grind arith);
  };
  no_probe = refl;
}

module _ {S L : Type 0} (shared : SharedTier S) (local : LocalTier L) where
  -- A get that is let through and answered gives the answer, and the breaker is closed after it.
  allowed_get-answered :
      (key : String) (ended : ℕ) (r : Bool × Breaker) (c : FallbackCache S L) (v : Option Bytes)
      (s : S)
      → 0 < c.options.failure_threshold
      → r.0 ≡ true
      → shared.get_value key c.shared ≡ (ok v, s)
      → let d = allowed_get shared local key ended r c in
        (d.0 ≡ v) × (shared_healthy c.options d.1.breaker ≡ true)
  unfolding shared_got shared_healthy record_success
  allowed_get-answered key ended (false, b) c v s t e a = absurd (grind arith)
  allowed_get-answered key ended (true, b) c none s t e a = rw a (refl, ground arith)
  allowed_get-answered key ended (true, b) c (some x) s t e a = rw a (refl, ground arith)

  -- From a new cache with a threshold, and a first window of at most the longest: calls run one after the
  -- other and end by a time, whatever the tiers answered. A get that starts the longest window later, of a
  -- key that the local tier has not, asks the shared tier: where that answers, its answer is the
  -- result, and the shared tier counts as healthy again.
  pub fallback_get-recovers :
      (o : FallbackOptions) (s : S) (l : L) (calls : List Call) (latest : ℕ) (key : String)
      (started ended : ℕ) (v : Option Bytes) (s' : S)
      → 0 < o.failure_threshold
      → o.initial_cooldown ≤ o.max_cooldown
      → All (EndsBy latest) calls
      → latest + o.max_cooldown ≤ started
      → let c = fallback_calls shared local calls (new_fallback_cache o s l) in
        (local.get_value key c.local).0 ≡ none
        → shared.get_value key c.shared ≡ (ok v, s')
        → let d = fallback_get shared local key started ended c in
          (d.0 ≡ v) × (shared_healthy o d.1.breaker ≡ true)
  unfolding fallback_get local_got
  fallback_get-recovers o s l calls latest key started ended v s' t small by late missed answered =
      let c = fallback_calls shared local calls (new_fallback_cache o s l) in
      let (same, calm) =
        fallback_calls-IsQuiet shared local o latest small calls (new_fallback_cache o s l) by
          (refl, new_breaker-IsCalm o latest small) in
      go (local.get_value key c.local) missed same calm answered
    where
      c : FallbackCache S L
      c = fallback_calls shared local calls (new_fallback_cache o s l)

      go :
          (a : Option Bytes × L)
          → a.0 ≡ none
          → c.options ≡ o
          → IsCalm o latest c.breaker
          → shared.get_value key c.shared ≡ (ok v, s')
          → let d = local_got shared local key started ended a c in
            (d.0 ≡ v) × (shared_healthy o d.1.breaker ≡ true)
      go (some x, l) m same calm a = absurd (grind arith)
      go (none, l) m same calm a =
          let allowed =
            subst (λ z. (allow_shared z started c.breaker).0 ≡ true) (sym same)
              (allow_shared-late o latest started c.breaker calm late) in
          let got =
            allowed_get-answered key ended (allow_shared c.options started c.breaker)
              (record c { local = l }) v s' (subst (λ z. 0 < z.failure_threshold) (sym same) t)
              allowed a in
          (
            got.0,
            subst
                (λ z.
                  shared_healthy z
                    (allowed_get shared local key ended (allow_shared c.options started c.breaker)
                      (record c { local = l })).1.breaker
                  ≡ true)
                same got.1,
          )
