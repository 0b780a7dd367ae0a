-- ===== src/Cache/Pool/Budgets.antt =====
-- The configured size and the budgets of the shards (memory_cache.cpp: MemoryCache, evict, stats).
use native.Mathlib.Nat.{mul-div-le}
use mono_bucket.Base.{
  ℕ, zero, suc, ◌+◌, ◌*◌, ◌/◌, ◌^◌, ◌≤◌, ◌<◌, ◌≡◌, refl, List, [], ◌∷◌, leb, ◌==◌, if◌then◌else◌,
  add64, length, word64, arith, All, Bool-cases, inl, inr,
}
use mono_bucket.Cache.Shard.{Shard, evict_shard}
use mono_bucket.Cache.Shard.Budget.{IsCoherent}
use mono_bucket.Cache.Shard.Run.{evict_shard-limit}
use mono_bucket.Cache.Pool.{
  floor_power_from, floor_power_of_two, smaller, larger, shard_count, empty_shard, repeat,
  new_cache, evict_from, evict, stats, stats_from, CacheStats, min_shard_budget,
}

unfoldable pub budget_sum : List Shard → ℕ
budget_sum [] = 0
budget_sum (s ∷ ss) = s.budget + budget_sum ss

unfoldable pub byte_sum : List Shard → ℕ
byte_sum [] = 0
byte_sum (s ∷ ss) = s.bytes + byte_sum ss

pub IsPower : ℕ → Type 0
IsPower n = (k : ℕ) × (n ≡ 2 ^ k)

floor_power_from-bounds :
    (f r v : ℕ)
    → 1 ≤ r
    → r ≤ v
    → v ≤ f + r
    → (1 ≤ floor_power_from f r v) × (floor_power_from f r v ≤ v) × (v < floor_power_from f r v * 2)
unfolding floor_power_from
floor_power_from-bounds zero r v h g e = omega arith
floor_power_from-bounds (suc f) r v h g e = elim (Bool-cases (leb (r * 2) v)) [
  | inl more ↦
      rw more (floor_power_from-bounds f (r * 2) v (omega arith) (ground arith) (omega arith))
  | inr done ↦ rw done (ground arith)
]

floor_power_from-IsPower : (f r v k : ℕ) → r ≡ 2 ^ k → IsPower (floor_power_from f r v)
unfolding floor_power_from IsPower
floor_power_from-IsPower zero r v k e = (k, e)
floor_power_from-IsPower (suc f) r v k e = elim (Bool-cases (leb (r * 2) v)) [
  | inl more ↦ rw more (floor_power_from-IsPower f (r * 2) v (suc k) (omega (arith, e)))
  | inr done ↦ rw done (k, e)
]

budget_sum-repeat : (n b : ℕ) → budget_sum (repeat n (empty_shard b)) ≡ n * b
unfolding budget_sum
budget_sum-repeat zero b = omega arith
budget_sum-repeat (suc n) b = omega (arith, budget_sum-repeat n b)

count_argument :
    (m n : ℕ)
    → (1 ≤ smaller (smaller (if n == 0 then 8 else n) 64) (larger 1 (m / min_shard_budget)))
      × (smaller (smaller (if n == 0 then 8 else n) 64) (larger 1 (m / min_shard_budget)) ≤ 64)
count_argument m n = ground arith

-- The number of shards is from 1 to 64, at most the larger of 1 and the size in MiB, and a power of
-- two, and the budgets of the shards add up to at most the size.
pub new_cache-bounds :
    (m n : ℕ)
    → (1 ≤ shard_count m n)
      × (shard_count m n ≤ 64)
      × (shard_count m n ≤ larger 1 (m / min_shard_budget))
      × IsPower (shard_count m n)
      × (budget_sum (new_cache m n) ≤ m)
unfolding shard_count floor_power_of_two new_cache
new_cache-bounds m n =
    let v = smaller (smaller (if n == 0 then 8 else n) 64) (larger 1 (m / min_shard_budget)) in
    let q = count_argument m n in
    let b = floor_power_from-bounds v 1 v (omega arith) q.0 (omega arith) in
    (
      b.0,
      omega (arith, b.1, q.1),
      ground (arith, b.1),
      floor_power_from-IsPower v 1 v 0 refl,
      omega (
        arith,
        budget_sum-repeat (shard_count m n) (m / shard_count m n),
        mul-div-le m (shard_count m n),
      ),
    )

length-evict_from :
    (limit ticks removed : ℕ) (pool : List Shard)
    → length (evict_from limit ticks removed pool).1 ≡ length pool
unfolding evict_from
length-evict_from limit ticks removed [] = refl
length-evict_from limit ticks removed (s ∷ ss) =
    omega (arith, length-evict_from limit ticks (evict_shard limit ticks removed s).0 ss)

evict_from-limit :
    (limit ticks removed : ℕ) (pool : List Shard)
    → All IsCoherent pool
    → byte_sum (evict_from limit ticks removed pool).1 ≤ length pool * limit
unfolding evict_from byte_sum
evict_from-limit limit ticks removed [] h = omega arith
evict_from-limit limit ticks removed (s ∷ ss) (c, h) = omega (
  arith,
  evict_shard-limit limit ticks removed s c,
  evict_from-limit limit ticks (evict_shard limit ticks removed s).0 ss h,
)

-- The periodic pass over coherent shards leaves at most the bytes it was given, over all shards.
pub evict-limit :
    (budget_bytes ticks : ℕ) (pool : List Shard)
    → All IsCoherent pool
    → byte_sum (evict budget_bytes ticks pool).1 ≤ budget_bytes
unfolding evict
evict-limit budget_bytes ticks pool h = omega (
  arith,
  evict_from-limit (budget_bytes / length pool) ticks 0 pool h,
  mul-div-le budget_bytes (length pool),
)

pub stats_from-bytes :
    (c : CacheStats) (pool : List Shard)
    → c.bytes + byte_sum pool < word64
    → ((stats_from c pool).bytes ≡ c.bytes + byte_sum pool)
      × ((stats_from c pool).limit_bytes ≡ c.limit_bytes)
unfolding stats_from byte_sum
stats_from-bytes c [] h = omega arith
stats_from-bytes c (s ∷ ss) h =
    let q =
      stats_from-bytes
        (record {
          hits = add64 c.hits s.hits;
          misses = add64 c.misses s.misses;
          evictions = add64 c.evictions s.evictions;
          expirations = add64 c.expirations s.expirations;
          rejections = add64 c.rejections s.rejections;
          entries = add64 c.entries (length s.entries);
          bytes = add64 c.bytes s.bytes;
          limit_bytes = c.limit_bytes;
        })
        ss (omega arith) in
    omega (arith, q)

pub stats-bytes :
    (m : ℕ) (pool : List Shard) → byte_sum pool < word64 → (stats m pool).bytes ≡ byte_sum pool
unfolding stats
stats-bytes m pool h = omega (
  arith,
  stats_from-bytes
      (record {
        hits = 0;
        misses = 0;
        evictions = 0;
        expirations = 0;
        rejections = 0;
        entries = 0;
        bytes = 0;
        limit_bytes = m;
      })
      pool (omega arith),
)
