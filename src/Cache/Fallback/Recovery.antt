-- ===== src/Cache/Fallback/Recovery.antt =====
-- backend/src/cache/fallback_cache.cpp: calls one after the other, and when the shared tier is asked
-- again.
use mono_bucket.Base.{
  ℕ, ◌+◌, ◌%◌, ◌^◌, ◌≤◌, ◌≡◌, refl, sym, subst, inl, inr, String, Bool, true, false, Option, none,
  some, List, [], ◌∷◌, ltb, if◌then◌else◌, All, Bytes, ℤ, Result, ok, err, arith, Bool-cases,
}
use mono_bucket.Cache.Fallback.{
  FallbackOptions, Breaker, local_ttl, allow_shared, record_success, record_failure, LocalTier,
  SharedTier, FallbackCache, shared_got, allowed_get, local_got, fallback_get, shared_done,
  allowed_set, fallback_set, allowed_del, fallback_del, fallback_evict, allowed_clear,
  fallback_clear,
}
use mono_bucket.Cache.Fallback.Cooldown.{
  IsSane, allow_shared-IsSane, record_success-IsSane, record_failure-IsSane,
}

-- A call, with the times at which it starts and ends.
pub data Call : Type 0 where
  get_call : (key : String) (started ended : ℕ) → Call
  set_call : (key : String) (value : Bytes) (ttl : ℤ) (started ended : ℕ) → Call
  del_call : (key : String) (started ended : ℕ) → Call
  evict_call : (budget : ℕ) → Call
  clear_call : (started ended : ℕ) → Call

abbrev pub EndsBy : ℕ → Call → Type 0
EndsBy latest (get_call key started ended) = ended ≤ latest
EndsBy latest (set_call key value ttl started ended) = ended ≤ latest
EndsBy latest (del_call key started ended) = ended ≤ latest
EndsBy latest (evict_call budget) = Unit
EndsBy latest (clear_call started ended) = ended ≤ latest

-- Between two calls no probe is out.
pub record IsCalm (o : FallbackOptions) (latest : ℕ) (b : Breaker) : Type 0 where
  pub is_sane : IsSane o latest b
  pub no_probe : b.probe_in_flight ≡ false

-- A call that was refused left the breaker as it was.
abbrev IsVerdict : FallbackOptions → ℕ → Bool × Breaker → Type 0
IsVerdict o latest r = IsSane o latest r.1 × (r.0 ≡ false → r.1.probe_in_flight ≡ false)

allow_shared-IsVerdict :
    (o : FallbackOptions) (latest now : ℕ) (b : Breaker)
    → IsCalm o latest b
    → IsVerdict o latest (allow_shared o now b)
unfolding allow_shared
allow_shared-IsVerdict o latest now b h = (
  allow_shared-IsSane o latest now b h.is_sane,
  go (ltb b.consecutive_failures o.failure_threshold) (ltb now b.open_until) b.probe_in_flight,
)
  where
    go :
        (closed early probing : Bool)
        → let r : Bool × Breaker =
            if closed
            then (true, b)
            else if early
            then (false, b)
            else if probing
            then (false, b)
            else (true, record b { probe_in_flight = true }) in
          r.0 ≡ false → r.1.probe_in_flight ≡ false
    go true early probing e = h.no_probe
    go false true probing e = h.no_probe
    go false false true e = h.no_probe
    go false false false e = absurd (grind arith)

record_failure-no_probe :
    (o : FallbackOptions) (now : ℕ) (b : Breaker) → (record_failure o now b).probe_in_flight ≡ false
unfolding record_failure
record_failure-no_probe o now b =
    elim (Bool-cases (ltb ((b.consecutive_failures + 1) % 2 ^ 32) o.failure_threshold)) [
      | inl t ↦ rw t refl
      | inr f ↦ rw f refl
    ]

record_failure-IsCalm :
    (o : FallbackOptions) (latest now : ℕ) (b : Breaker)
    → o.initial_cooldown ≤ o.max_cooldown
    → now ≤ latest
    → IsSane o latest b
    → IsCalm o latest (record_failure o now b)
record_failure-IsCalm o latest now b small by h = record {
  is_sane = record_failure-IsSane o latest now b small by h;
  no_probe = record_failure-no_probe o now b;
}

record_success-IsCalm :
    (o : FallbackOptions) (latest : ℕ) (b : Breaker)
    → o.initial_cooldown ≤ o.max_cooldown
    → IsSane o latest b
    → IsCalm o latest (record_success o b)
unfolding record_success
record_success-IsCalm o latest b small h = record {
  is_sane = record_success-IsSane o latest b small h;
  no_probe = refl;
}

module _ {S L : Type 0} (shared : SharedTier S) (local : LocalTier L) where
  unfoldable pub fallback_call : Call → FallbackCache S L → FallbackCache S L
  unfolding fallback_get fallback_set fallback_del fallback_evict fallback_clear
  fallback_call (get_call key started ended) c = (fallback_get shared local key started ended c).1
  fallback_call (set_call key value ttl started ended) c =
      fallback_set shared local key value ttl started ended c
  fallback_call (del_call key started ended) c = (fallback_del shared local key started ended c).1
  fallback_call (evict_call budget) c = (fallback_evict shared local budget c).1
  fallback_call (clear_call started ended) c = fallback_clear shared local started ended c

  unfoldable pub fallback_calls : List Call → FallbackCache S L → FallbackCache S L
  unfolding fallback_call
  fallback_calls [] c = c
  fallback_calls (call ∷ calls) c = fallback_calls calls (fallback_call call c)

  -- Between calls: the options are those given, and no probe is out.
  abbrev pub IsQuiet : FallbackOptions → ℕ → FallbackCache S L → Type 0
  IsQuiet o latest c = (c.options ≡ o) × IsCalm o latest c.breaker

  module _ (o : FallbackOptions) (latest : ℕ) (small : o.initial_cooldown ≤ o.max_cooldown) where
    shared_done-IsQuiet :
        {A : Type 0} (ended : ℕ) (r : Result (Unit {0}) A × S) (c : FallbackCache S L)
        → ended ≤ latest
        → c.options ≡ o
        → IsSane o latest c.breaker
        → IsQuiet o latest (shared_done shared local ended r c)
    unfolding shared_done
    shared_done-IsQuiet ended (err x, s) c by e h = (
      e,
      subst (λ z. IsCalm o latest (record_failure z ended c.breaker)) (sym e)
          (record_failure-IsCalm o latest ended c.breaker small by h),
    )
    shared_done-IsQuiet ended (ok a, s) c by e h = (
      e,
      subst (λ z. IsCalm o latest (record_success z c.breaker)) (sym e)
          (record_success-IsCalm o latest c.breaker small h),
    )

    allowed_get-IsQuiet :
        (key : String) (ended : ℕ) (r : Bool × Breaker) (c : FallbackCache S L)
        → ended ≤ latest
        → c.options ≡ o
        → IsVerdict o latest r
        → IsQuiet o latest (allowed_get shared local key ended r c).1
    unfolding shared_got shared_done
    allowed_get-IsQuiet key ended (false, b) c by e (h, p) =
        (e, record { is_sane = h; no_probe = p refl })
    allowed_get-IsQuiet key ended (true, b) c by e (h, p) = go (shared.get_value key c.shared)
      where
        go :
            (a : Result (Unit {0}) (Option Bytes) × S)
            → IsQuiet o latest (shared_got shared local key ended a (record c { breaker = b })).1
        go (err x, s) =
            shared_done-IsQuiet {A = Unit} ended (err x, s) (record c { breaker = b }) by e h
        go (ok none, s) =
            shared_done-IsQuiet {A = Unit} ended (ok tt, s) (record c { breaker = b }) by e h
        go (ok (some value), s) =
            shared_done-IsQuiet {A = Unit} ended (ok tt, s) (record c { breaker = b }) by e h

    allowed_del-IsQuiet :
        (key : String) (local_had : Bool) (ended : ℕ) (r : Bool × Breaker) (c : FallbackCache S L)
        → ended ≤ latest
        → c.options ≡ o
        → IsVerdict o latest r
        → IsQuiet o latest (allowed_del shared local key local_had ended r c).1
    allowed_del-IsQuiet key local_had ended (false, b) c by e (h, p) =
        (e, record { is_sane = h; no_probe = p refl })
    allowed_del-IsQuiet key local_had ended (true, b) c by e (h, p) =
        shared_done-IsQuiet ended (shared.del_value key c.shared) (record c { breaker = b }) by e h

    allowed_set-IsQuiet :
        (key : String) (value : Bytes) (ttl : ℤ) (ended : ℕ) (r : Bool × Breaker)
        (c : FallbackCache S L)
        → ended ≤ latest
        → c.options ≡ o
        → IsVerdict o latest r
        → IsQuiet o latest (allowed_set shared local key value ttl ended r c)
    allowed_set-IsQuiet key value ttl ended (false, b) c by e (h, p) =
        (e, record { is_sane = h; no_probe = p refl })
    allowed_set-IsQuiet key value ttl ended (true, b) c by e (h, p) =
        shared_done-IsQuiet ended (shared.set_value key value ttl c.shared)
          (record c { breaker = b }) by e h

    allowed_clear-IsQuiet :
        (ended : ℕ) (r : Bool × Breaker) (c : FallbackCache S L)
        → ended ≤ latest
        → c.options ≡ o
        → IsVerdict o latest r
        → IsQuiet o latest (allowed_clear shared local ended r c)
    allowed_clear-IsQuiet ended (false, b) c by e (h, p) =
        (e, record { is_sane = h; no_probe = p refl })
    allowed_clear-IsQuiet ended (true, b) c by e (h, p) =
        shared_done-IsQuiet ended (shared.clear_all c.shared) (record c { breaker = b }) by e h

    verdict :
        (started : ℕ) (c : FallbackCache S L)
        → IsQuiet o latest c
        → IsVerdict o latest (allow_shared c.options started c.breaker)
    verdict started c (e, h) =
        subst (λ z. IsVerdict o latest (allow_shared z started c.breaker)) (sym e)
          (allow_shared-IsVerdict o latest started c.breaker h)

    fallback_call-IsQuiet :
        (call : Call) (c : FallbackCache S L)
        → EndsBy latest call
        → IsQuiet o latest c
        → IsQuiet o latest (fallback_call call c)
    unfolding fallback_call fallback_get fallback_set fallback_del fallback_evict fallback_clear
    fallback_call-IsQuiet (get_call key started ended) c by h = go (local.get_value key c.local)
      where
        go :
            (a : Option Bytes × L)
            → IsQuiet o latest (local_got shared local key started ended a c).1
        go (some value, l) = h
        go (none, l) =
            allowed_get-IsQuiet key ended (allow_shared c.options started c.breaker)
              (record c { local = l }) by h.0 (verdict started c h)
    fallback_call-IsQuiet (set_call key value ttl started ended) c by h =
        allowed_set-IsQuiet key value ttl ended (allow_shared c.options started c.breaker)
          (record c { local = local.set_value key value (local_ttl c.options ttl) c.local }) by h.0
          (verdict started c h)
    fallback_call-IsQuiet (del_call key started ended) c by h =
        allowed_del-IsQuiet key (local.del_value key c.local).0 ended
          (allow_shared c.options started c.breaker)
          (record c { local = (local.del_value key c.local).1 }) by h.0 (verdict started c h)
    fallback_call-IsQuiet (evict_call budget) c by h = h
    fallback_call-IsQuiet (clear_call started ended) c by h =
        allowed_clear-IsQuiet ended (allow_shared c.options started c.breaker)
          (record c { local = local.clear_all c.local }) by h.0 (verdict started c h)

    pub fallback_calls-IsQuiet :
        (calls : List Call) (c : FallbackCache S L)
        → All (EndsBy latest) calls
        → IsQuiet o latest c
        → IsQuiet o latest (fallback_calls calls c)
    unfolding fallback_calls
    fallback_calls-IsQuiet [] c by h = h
    fallback_calls-IsQuiet (call ∷ calls) c (by, bys) h =
        fallback_calls-IsQuiet calls (fallback_call call c) bys (fallback_call-IsQuiet call c by h)
