-- ===== src/Cache/Pool.antt =====
-- backend/src/cache/memory_cache.cpp: the cache over its shards. The hash of a key is a parameter.
pub mod Budgets
pub mod Run
use mono_bucket.Base.{
  ℕ, zero, suc, ◌+◌, ◌-◌, ◌*◌, ◌/◌, ◌%◌, ◌^◌, ◌≤◌, ◌<◌, ◌≡◌, refl, String, Bool, true, false,
  Option, none, some, List, [], ◌∷◌, ltb, leb, ◌==◌, if◌then◌else◌, add64, length, ℤ, Bytes, word64,
  arith,
}
use mono_bucket.Cache.Shard.{Shard, get, set, del, evict_shard, clear_shard}

-- kMinShardBudgetBytes
abbrev pub min_shard_budget : ℕ
min_shard_budget = 1024 * 1024

-- The loop of floorPowerOfTwo, on fuel; `value` is at most 64, so that `result * 2` cannot wrap.
unfoldable pub floor_power_from : ℕ → ℕ → ℕ → ℕ
floor_power_from zero result value = result
floor_power_from (suc f) result value =
    let rest = floor_power_from f (result * 2) value in
    if leb (result * 2) value then rest else result

unfoldable pub floor_power_of_two : ℕ → ℕ
unfolding floor_power_from
floor_power_of_two value = floor_power_from value 1 value

abbrev pub smaller : ℕ → ℕ → ℕ
smaller a b = if ltb b a then b else a

abbrev pub larger : ℕ → ℕ → ℕ
larger a b = if ltb a b then b else a

-- The number of shards that MemoryCache::MemoryCache makes.
unfoldable pub shard_count : ℕ → ℕ → ℕ
unfolding floor_power_of_two
shard_count max_bytes shards = floor_power_of_two (
    smaller (smaller (if shards == 0 then 8 else shards) 64)
      (larger 1 (max_bytes / min_shard_budget)))

abbrev pub empty_shard : ℕ → Shard
empty_shard budget = record {
  entries = [];
  bytes = 0;
  budget = budget;
  hits = 0;
  misses = 0;
  evictions = 0;
  expirations = 0;
  rejections = 0;
}

abbrev pub repeat {ℓ} : {A : Type ℓ} → ℕ → A → List A
repeat zero x = []
repeat (suc n) x = x ∷ repeat n x

-- MemoryCache::MemoryCache
unfoldable pub new_cache : ℕ → ℕ → List Shard
unfolding shard_count
new_cache max_bytes shards =
    let count = shard_count max_bytes shards in repeat count (empty_shard (max_bytes / count))

-- shardFor: `hash & (count - 1)`, which is the remainder for a count that is a power of two.
unfoldable pub shard_for : ℕ → List Shard → ℕ
shard_for hashed shards = hashed % length shards

-- The answer of a step on one shard, and the shards with that one replaced.
unfoldable pub at {ℓ} : {A : Type ℓ} → A → (Shard → A × Shard) → ℕ → List Shard → A × List Shard
at none_there f i [] = (none_there, [])
at none_there f zero (s ∷ ss) = ((f s).0, (f s).1 ∷ ss)
at none_there f (suc i) (s ∷ ss) = let rest = at none_there f i ss in (rest.0, s ∷ rest.1)

module _ (hash : String → ℕ) where
  -- MemoryCache::get, set and del on the shard of the key.
  unfoldable pub pool_get : ℕ → String → List Shard → Option Bytes × List Shard
  unfolding at shard_for
  pool_get ticks k pool = at none (get ticks k) (shard_for (hash k) pool) pool

  unfoldable pub pool_set : ℕ → String → Option Bytes → ℤ → List Shard → List Shard
  unfolding at shard_for
  pool_set ticks k v ttl pool =
      (at true (λ s. (true, set ticks k v ttl s)) (shard_for (hash k) pool) pool).1

  unfoldable pub pool_del : String → List Shard → Bool × List Shard
  unfolding at shard_for
  pool_del k pool = at false (del k) (shard_for (hash k) pool) pool

-- The loop of MemoryCache::evict.
unfoldable pub evict_from : ℕ → ℕ → ℕ → List Shard → ℕ × List Shard
evict_from limit ticks removed [] = (removed, [])
evict_from limit ticks removed (s ∷ ss) =
    let t = evict_shard limit ticks removed s in
    let rest = evict_from limit ticks t.0 ss in (rest.0, t.1 ∷ rest.1)

unfoldable pub evict : ℕ → ℕ → List Shard → ℕ × List Shard
unfolding evict_from
evict budget_bytes ticks pool = evict_from (budget_bytes / length pool) ticks 0 pool

-- MemoryCache::clear
unfoldable pub clear : List Shard → List Shard
clear [] = []
clear (s ∷ ss) = clear_shard s ∷ clear ss

-- MemoryCache::stats
pub record CacheStats : Type 0 where
  pub hits : ℕ
  pub misses : ℕ
  pub evictions : ℕ
  pub expirations : ℕ
  pub rejections : ℕ
  pub entries : ℕ
  pub bytes : ℕ
  pub limit_bytes : ℕ

unfoldable pub stats_from : CacheStats → List Shard → CacheStats
stats_from c [] = c
stats_from c (s ∷ ss) =
    stats_from
      (record {
        hits = add64 c.hits s.hits;
        misses = add64 c.misses s.misses;
        evictions = add64 c.evictions s.evictions;
        expirations = add64 c.expirations s.expirations;
        rejections = add64 c.rejections s.rejections;
        entries = add64 c.entries (length s.entries);
        bytes = add64 c.bytes s.bytes;
        limit_bytes = c.limit_bytes;
      })
      ss

unfoldable pub stats : ℕ → List Shard → CacheStats
unfolding stats_from
stats max_bytes pool =
    stats_from
      (record {
        hits = 0;
        misses = 0;
        evictions = 0;
        expirations = 0;
        rejections = 0;
        entries = 0;
        bytes = 0;
        limit_bytes = max_bytes;
      })
      pool
