-- ===== src/Cache/Pool/Run.antt =====
-- The cache through any sequence of calls (memory_cache.cpp).
use native.Mathlib.Nat.{div-le_self}
use mono_bucket.Base.{
  ℕ, zero, suc, ◌+◌, ◌/◌, ◌^◌, ◌≤◌, ◌<◌, ◌≡◌, refl, ◌∙◌, ap, String, true, false, none, List, [],
  ◌∷◌, length, arith, All,
}
use mono_bucket.Cache.Shard.{Shard, get, set, del, evict_shard}
use mono_bucket.Cache.Shard.Budget.{IsCoherent, node_sum, times}
use mono_bucket.Cache.Shard.Run.{
  Call, get_call, set_call, del_call, evict_call, clear_call, perform, perform-IsCoherent,
  perform-budget, evict_shard-IsCoherent, evict_shard-budget,
}
use mono_bucket.Cache.Pool.{
  at, shard_for, pool_get, pool_set, pool_del, empty_shard, repeat, new_cache, shard_count,
  evict_from, evict, clear, stats,
}
use mono_bucket.Cache.Pool.Budgets.{budget_sum, byte_sum, new_cache-bounds, stats-bytes}

-- One call on the cache.
unfoldable pub perform_pool : (String → ℕ) → ℕ → Call → List Shard → List Shard
perform_pool hash ticks (get_call k) pool = (pool_get hash ticks k pool).1
perform_pool hash ticks (set_call k v ttl) pool = pool_set hash ticks k v ttl pool
perform_pool hash ticks (del_call k) pool = (pool_del hash k pool).1
perform_pool hash ticks (evict_call budget_bytes) pool = (evict budget_bytes ticks pool).1
perform_pool hash ticks clear_call pool = clear pool

unfoldable pub serve_pool : (String → ℕ) → List (ℕ × Call) → List Shard → List Shard
serve_pool hash [] pool = pool
serve_pool hash ((ticks, c) ∷ cs) pool = serve_pool hash cs (perform_pool hash ticks c pool)

-- Coherent shards, whose budgets add up to `m`.
abbrev IsPool : ℕ → List Shard → Type 0
IsPool m pool = All IsCoherent pool × (budget_sum pool ≡ m)

-- A step on a shard that keeps what each shard keeps.
abbrev Keeps : (Shard → Shard) → Type 0
Keeps f = (s : Shard) → (IsCoherent s → IsCoherent (f s)) × ((f s).budget ≡ s.budget)

at-All :
    {A : Type 0} (d : A) (f : Shard → A × Shard) (i : ℕ) (pool : List Shard)
    → Keeps (λ s. (f s).1)
    → All IsCoherent pool
    → All IsCoherent (at d f i pool).1
unfolding at
at-All d f i [] keeps h = h
at-All d f zero (s ∷ ss) keeps (c, h) = ((keeps s).0 c, h)
at-All d f (suc i) (s ∷ ss) keeps (c, h) = (c, at-All d f i ss keeps h)

at-budgets :
    {A : Type 0} (d : A) (f : Shard → A × Shard) (i : ℕ) (pool : List Shard)
    → Keeps (λ s. (f s).1)
    → budget_sum (at d f i pool).1 ≡ budget_sum pool
unfolding at budget_sum
at-budgets d f i [] keeps = refl
at-budgets d f zero (s ∷ ss) keeps = ap (λ b. b + budget_sum ss) (keeps s).1
at-budgets d f (suc i) (s ∷ ss) keeps = ap (λ b. s.budget + b) (at-budgets d f i ss keeps)

at-IsPool :
    {A : Type 0} (d : A) (f : Shard → A × Shard) (i m : ℕ) (pool : List Shard)
    → Keeps (λ s. (f s).1)
    → IsPool m pool
    → IsPool m (at d f i pool).1
at-IsPool d f i m pool keeps (h, e) = (at-All d f i pool keeps h, at-budgets d f i pool keeps ∙ e)

Keeps-call : (ticks : ℕ) (c : Call) → Keeps (perform ticks c)
Keeps-call ticks c s = (perform-IsCoherent ticks c s, perform-budget ticks c s)

Keeps-evict : (limit ticks removed : ℕ) → Keeps (λ s. (evict_shard limit ticks removed s).1)
Keeps-evict limit ticks removed s =
    (evict_shard-IsCoherent limit ticks removed s, evict_shard-budget limit ticks removed s)

evict_from-IsPool :
    (limit ticks removed m : ℕ) (pool : List Shard)
    → IsPool m pool
    → IsPool m (evict_from limit ticks removed pool).1
unfolding evict_from budget_sum
evict_from-IsPool limit ticks removed m [] h = h
evict_from-IsPool limit ticks removed m (s ∷ ss) ((c, h), e) =
    let q =
      evict_from-IsPool limit ticks (evict_shard limit ticks removed s).0 (budget_sum ss) ss
        (h, refl) in
    (
      ((Keeps-evict limit ticks removed s).0 c, q.0),
      omega (arith, q.1, (Keeps-evict limit ticks removed s).1, e),
    )

clear-IsPool : (m : ℕ) (pool : List Shard) → IsPool m pool → IsPool m (clear pool)
unfolding clear budget_sum perform
clear-IsPool m [] h = h
clear-IsPool m (s ∷ ss) ((c, h), e) =
    let q = clear-IsPool (budget_sum ss) ss (h, refl) in
    (((Keeps-call 0 clear_call s).0 c, q.0), omega (arith, q.1, (Keeps-call 0 clear_call s).1, e))

perform_pool-IsPool :
    (hash : String → ℕ) (ticks m : ℕ) (c : Call) (pool : List Shard)
    → IsPool m pool
    → IsPool m (perform_pool hash ticks c pool)
unfolding perform_pool pool_get pool_set pool_del evict perform
perform_pool-IsPool hash ticks m (get_call k) pool h =
    at-IsPool none (get ticks k) (shard_for (hash k) pool) m pool (Keeps-call ticks (get_call k)) h
perform_pool-IsPool hash ticks m (set_call k v ttl) pool h =
    at-IsPool true (λ s. (true, set ticks k v ttl s)) (shard_for (hash k) pool) m pool
      (Keeps-call ticks (set_call k v ttl)) h
perform_pool-IsPool hash ticks m (del_call k) pool h =
    at-IsPool false (del k) (shard_for (hash k) pool) m pool (Keeps-call ticks (del_call k)) h
perform_pool-IsPool hash ticks m (evict_call b) pool h =
    evict_from-IsPool (b / length pool) ticks 0 m pool h
perform_pool-IsPool hash ticks m clear_call pool h = clear-IsPool m pool h

serve_pool-IsPool :
    (hash : String → ℕ) (m : ℕ) (calls : List (ℕ × Call)) (pool : List Shard)
    → IsPool m pool
    → IsPool m (serve_pool hash calls pool)
unfolding serve_pool
serve_pool-IsPool hash m [] pool h = h
serve_pool-IsPool hash m ((ticks, c) ∷ cs) pool h =
    serve_pool-IsPool hash m cs (perform_pool hash ticks c pool)
      (perform_pool-IsPool hash ticks m c pool h)

byte_sum-le : (pool : List Shard) → All IsCoherent pool → byte_sum pool ≤ budget_sum pool
unfolding byte_sum budget_sum
byte_sum-le [] h = omega arith
byte_sum-le (s ∷ ss) (c, h) = omega (arith, c.1, byte_sum-le ss h)

repeat-IsCoherent : (n b : ℕ) → b < 2 ^ 63 → All IsCoherent (repeat n (empty_shard b))
unfolding node_sum times
repeat-IsCoherent zero b h = tt
repeat-IsCoherent (suc n) b h =
    (((refl, omega arith, λ k. omega arith), omega arith, h), repeat-IsCoherent n b h)

-- Whatever the hash, the number of shards asked for and the calls, a cache made with a size below 2 ^ 63
-- reports at most that many bytes, the report is the sum over its shards, and each shard is coherent.
pub serve_pool-within :
    (hash : String → ℕ) (m n : ℕ) (calls : List (ℕ × Call))
    → m < 2 ^ 63
    → ((stats m (serve_pool hash calls (new_cache m n))).bytes ≤ m)
      × ((stats m (serve_pool hash calls (new_cache m n))).bytes
          ≡ byte_sum (serve_pool hash calls (new_cache m n)))
      × All IsCoherent (serve_pool hash calls (new_cache m n))
unfolding new_cache
serve_pool-within hash m n calls h =
    let q = new_cache-bounds m n in
    let p = serve_pool-IsPool hash (budget_sum (new_cache m n)) calls (new_cache m n) (
      repeat-IsCoherent (shard_count m n) (m / shard_count m n)
          (omega (arith, div-le_self m (shard_count m n))),
      refl,
    ) in
    let small : byte_sum (serve_pool hash calls (new_cache m n)) ≤ m =
      omega (arith, byte_sum-le (serve_pool hash calls (new_cache m n)) p.0, p.1, q) in
    let e = stats-bytes m (serve_pool hash calls (new_cache m n)) (omega arith) in
    (omega arith, e, p.0)
