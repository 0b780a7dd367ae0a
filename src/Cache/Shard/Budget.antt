-- ===== src/Cache/Shard/Budget.antt =====
-- The accounting of a shard (memory_cache.cpp): sums over its entries, how often a key stands in
-- them, and when a shard is coherent.
use mono_bucket.Base.{
  ℕ, zero, suc, ◌+◌, ◌^◌, ◌≤◌, ◌<◌, ◌≡◌, refl, String, none, some, List, [], ◌∷◌, if◌then◌else◌,
  str_eq, length, word64, arith, eq_iff, length-append,
}
use mono_bucket.Cache.Shard.{Node, Shard, find_node, unlink, push_front, cleared, reprieve}

unfoldable pub node_sum : List Node → ℕ
node_sum [] = 0
node_sum (n ∷ ns) = n.bytes + node_sum ns

-- How many nodes have the key.
unfoldable pub times : String → List Node → ℕ
times k [] = 0
times k (n ∷ ns) = (if str_eq n.key k then 1 else 0) + times k ns

abbrev pub IsKeyed : List Node → Type 0
IsKeyed ns = (k : String) → times k ns ≤ 1

abbrev pub IsCounted : Shard → Type 0
IsCounted s = (s.bytes ≡ node_sum s.entries) × (s.bytes < word64) × IsKeyed s.entries

abbrev pub IsCoherent : Shard → Type 0
IsCoherent s = IsCounted s × (s.bytes ≤ s.budget) × (s.budget < 2 ^ 63)

pub node_sum-push_front :
    (n : Node) (ns : List Node) → node_sum (push_front n ns) ≡ node_sum ns + n.bytes
unfolding node_sum push_front
node_sum-push_front n [] = ground arith
node_sum-push_front n (m ∷ ns) = ground (arith, node_sum-push_front n ns)

pub times-push_front :
    (k : String) (n : Node) (ns : List Node)
    → times k (push_front n ns) ≡ times k ns + (if str_eq n.key k then 1 else 0)
unfolding times push_front
times-push_front k n [] = ground arith
times-push_front k n (m ∷ ns) = ground (arith, times-push_front k n ns)

pub node_sum-unlink :
    (k : String) (n : Node) (ns : List Node)
    → find_node k ns ≡ some n
    → node_sum ns ≡ n.bytes + node_sum (unlink k ns)
unfolding node_sum find_node unlink
node_sum-unlink k n [] e = ground arith
node_sum-unlink k n (m ∷ ns) e = ground (arith, node_sum-unlink k n ns)

pub times-unlink :
    (k j : String) (n : Node) (ns : List Node)
    → find_node k ns ≡ some n
    → times j ns ≡ times j (unlink k ns) + (if str_eq k j then 1 else 0)
unfolding times find_node unlink
times-unlink k j n [] e = ground arith
times-unlink k j n (m ∷ ns) e = ground (arith, times-unlink k j n ns, eq_iff m.key k)

pub find_node_key : (k : String) (n : Node) (ns : List Node) → find_node k ns ≡ some n → n.key ≡ k
unfolding find_node
find_node_key k n [] e = ground arith
find_node_key k n (m ∷ ns) e = ground (arith, find_node_key k n ns, eq_iff m.key k)

pub find_node_missing : (k : String) (ns : List Node) → find_node k ns ≡ none → times k ns ≡ 0
unfolding find_node times
find_node_missing k [] e = refl
find_node_missing k (m ∷ ns) e = ground (arith, find_node_missing k ns)

-- Reprieves reorder the entries and keep them all.
pub node_sum-reprieve : (r : ℕ) (ns : List Node) → node_sum (reprieve r ns) ≡ node_sum ns
unfolding reprieve node_sum
node_sum-reprieve zero [] = refl
node_sum-reprieve (suc r) [] = refl
node_sum-reprieve zero (n ∷ ns) = refl
node_sum-reprieve (suc r) (n ∷ ns) =
    ground
      (arith, node_sum-reprieve r (push_front (cleared n) ns), node_sum-push_front (cleared n) ns)

pub times-reprieve : (k : String) (r : ℕ) (ns : List Node) → times k (reprieve r ns) ≡ times k ns
unfolding reprieve times
times-reprieve k zero [] = refl
times-reprieve k (suc r) [] = refl
times-reprieve k zero (n ∷ ns) = refl
times-reprieve k (suc r) (n ∷ ns) =
    ground
      (arith, times-reprieve k r (push_front (cleared n) ns), times-push_front k (cleared n) ns)

length-push_front : (n : Node) (ns : List Node) → length (push_front n ns) ≡ suc (length ns)
unfolding push_front
length-push_front n ns = omega (arith, length-append ns (n ∷ []))

pub length-reprieve : (r : ℕ) (ns : List Node) → length (reprieve r ns) ≡ length ns
unfolding reprieve
length-reprieve zero [] = refl
length-reprieve (suc r) [] = refl
length-reprieve zero (n ∷ ns) = refl
length-reprieve (suc r) (n ∷ ns) =
    ground (arith, length-reprieve r (push_front (cleared n) ns), length-push_front (cleared n) ns)
