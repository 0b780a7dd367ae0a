-- ===== src/Cache/Tests.antt =====
-- The cache (memory_cache.cpp) on small inputs.
use mono_bucket.Base.{
  ℕ, ◌+◌, none, some, List, [], ◌∷◌, ◌≡◌, ◌<◌, ◌≤◌, map, All, true, arith, eq_iff, refl, codes,
  length, pos,
}
use mono_bucket.Cache.Shard.{
  Node, Shard, find_node, cleared, charge, set, get, is_live, expiry_from, never,
}
use mono_bucket.Cache.Shard.Budget.{IsCoherent, node_sum, times}
use mono_bucket.Cache.Shard.Run.{
  Call, get_call, set_call, evict_call, perform_all, perform_all-IsCoherent,
}
use mono_bucket.Cache.Shard.SecondChance.{IsHot, set-evicts_itself}
use mono_bucket.Cache.Pool.{new_cache, stats}
use mono_bucket.Cache.Pool.Budgets.{byte_sum}
use mono_bucket.Cache.Pool.Run.{serve_pool, serve_pool-within}

abbrev hot_node : Node
hot_node = record {
  key = "a";
  value = codes "xyz";
  bytes = 132;
  expires_at = never;
  accessed = true;
}

abbrev sample : Shard
sample = record {
  entries = hot_node ∷ [];
  bytes = 132;
  budget = 200;
  hits = 1;
  misses = 0;
  evictions = 0;
  expirations = 0;
  rejections = 0;
}

sample-IsCoherent : IsCoherent sample
unfolding node_sum times
sample-IsCoherent =
    ((refl, omega arith, λ k. ground (arith, eq_iff "a" k)), omega arith, omega arith)

abbrev session : List (ℕ × Call)
session =
    (10, set_call "b" (some (codes "long value")) (pos 5))
    ∷ (20, get_call "b")
    ∷ (6000, get_call "b")
    ∷ (6001, evict_call 100)
    ∷ []

perform_all-IsCoherent_example : IsCoherent (perform_all session sample)
perform_all-IsCoherent_example = perform_all-IsCoherent session sample sample-IsCoherent

new_key : find_node "b" sample.entries ≡ none
unfolding find_node
new_key = refl

fits : charge "b" (codes "xy") ≤ sample.budget
unfolding charge
fits = omega arith

full : sample.budget < sample.bytes + charge "b" (codes "xy")
unfolding charge
full = omega arith

hot : IsHot sample.entries
hot = (refl, tt)

set-evicts_itself_example :
    ((set 10 "b" (some (codes "xy")) (pos 0) sample).entries ≡ map cleared sample.entries)
    × ((now : ℕ) → (get now "b" (set 10 "b" (some (codes "xy")) (pos 0) sample)).0 ≡ none)
set-evicts_itself_example =
    set-evicts_itself 10 "b" (codes "xy") (pos 0) sample sample-IsCoherent new_key fits hot full

abbrev wide : Shard
wide = record sample { budget = 1000 }

wide-IsCoherent : IsCoherent wide
unfolding node_sum times
wide-IsCoherent = ((refl, omega arith, λ k. ground (arith, eq_iff "a" k)), omega arith, omega arith)

wide_fits : charge "b" (codes "xy") ≤ wide.budget
unfolding charge
wide_fits = omega arith

wide_room : wide.bytes + charge "b" (codes "xy") ≤ wide.budget
unfolding charge
wide_room = omega arith

live : is_live (expiry_from 10 (pos 5)) 5000 ≡ true
unfolding is_live expiry_from
live = refl

serve_pool-within_example :
    ((stats 3000000 (serve_pool (λ k. length (codes k)) session (new_cache 3000000 0))).bytes
      ≤ 3000000)
    × ((stats 3000000 (serve_pool (λ k. length (codes k)) session (new_cache 3000000 0))).bytes
        ≡ byte_sum (serve_pool (λ k. length (codes k)) session (new_cache 3000000 0)))
    × All IsCoherent (serve_pool (λ k. length (codes k)) session (new_cache 3000000 0))
serve_pool-within_example =
    serve_pool-within (λ k. length (codes k)) 3000000 0 session (omega arith)
