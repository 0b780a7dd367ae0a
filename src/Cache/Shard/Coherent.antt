-- ===== src/Cache/Shard/Coherent.antt =====
-- The single operations of a shard, and whether it stays coherent (memory_cache.cpp).
use mono_bucket.Base.{
  ℕ, zero, suc, ◌+◌, ◌≤◌, ◌<◌, ◌≡◌, refl, sym, subst, String, true, false, some, List, [], ◌∷◌, ltb,
  add64, sub64, length, word64, arith, eq_iff, Bool-cases, Option-cases, inl, inr,
}
use mono_bucket.Cache.Shard.{
  Node, Shard, find_node, unlink, remove_locked, reprieve, evict_first, evict_one, shrink_from,
  purge_from, purge_expired, touch, expire_locked, get_found, get, remove_found, is_live,
}
use mono_bucket.Cache.Shard.Budget.{
  node_sum, times, IsKeyed, IsCounted, IsCoherent, node_sum-unlink, times-unlink, find_node_key,
  node_sum-reprieve, times-reprieve, length-reprieve,
}

-- One eviction from a list that is the shard's in another order.
evict_first-IsCounted :
    (ns : List Node) (s : Shard)
    → IsCounted s
    → node_sum ns ≡ s.bytes
    → s.bytes < word64
    → IsKeyed ns
    → IsCounted (evict_first ns s).1
unfolding evict_first remove_locked unlink node_sum times
evict_first-IsCounted [] s c e h u = c
evict_first-IsCounted (n ∷ ns) s c e h u = (
  ground (arith, eq_iff n.key n.key),
  ground (arith, eq_iff n.key n.key),
  λ k. ground (arith, eq_iff n.key n.key, u k),
)

evict_first-length :
    (ns : List Node) (s : Shard)
    → ((evict_first ns s).0 ≡ true)
    → suc (length (evict_first ns s).1.entries) ≡ length ns
unfolding evict_first remove_locked unlink
evict_first-length [] s e = ground arith
evict_first-length (n ∷ ns) s e = ground (arith, eq_iff n.key n.key)

evict_first-empty : (ns : List Node) (s : Shard) → ((evict_first ns s).0 ≡ false) → node_sum ns ≡ 0
unfolding evict_first node_sum
evict_first-empty [] s e = refl
evict_first-empty (n ∷ ns) s e = ground arith

pub evict_one-IsCounted : (s : Shard) → IsCounted s → IsCounted (evict_one s).1
unfolding evict_one
evict_one-IsCounted s (e, h, u) =
    evict_first-IsCounted (reprieve (length s.entries) s.entries) s (e, h, u)
      (omega (arith, node_sum-reprieve (length s.entries) s.entries)) h
      (λ k. omega (arith, times-reprieve k (length s.entries) s.entries, u k))

pub length-evict_one :
    (s : Shard) → ((evict_one s).0 ≡ true) → suc (length (evict_one s).1.entries) ≡ length s.entries
unfolding evict_one
length-evict_one s e = omega (
  arith,
  evict_first-length (reprieve (length s.entries) s.entries) s e,
  length-reprieve (length s.entries) s.entries,
)

pub evict_one-empty : (s : Shard) → ((evict_one s).0 ≡ false) → node_sum s.entries ≡ 0
unfolding evict_one
evict_one-empty s e = omega (
  arith,
  evict_first-empty (reprieve (length s.entries) s.entries) s e,
  node_sum-reprieve (length s.entries) s.entries,
)

same_budget : (ns : List Node) (s : Shard) → (evict_first ns s).1.budget ≡ s.budget
unfolding evict_first remove_locked
same_budget [] s = refl
same_budget (n ∷ ns) s = refl

pub evict_one-budget : (s : Shard) → (evict_one s).1.budget ≡ s.budget
unfolding evict_one
evict_one-budget s = same_budget (reprieve (length s.entries) s.entries) s

pub shrink_from-IsCounted :
    (f limit removed : ℕ) (s : Shard) → IsCounted s → IsCounted (shrink_from f limit removed s).1
unfolding shrink_from
shrink_from-IsCounted zero limit removed s c = c
shrink_from-IsCounted (suc f) limit removed s c = elim (Bool-cases (ltb limit s.bytes)) [
  | inr fits ↦ rw fits c
  | inl over ↦ rw over (elim (Bool-cases (evict_one s).0) [
    | inl more ↦
        rw more (
          shrink_from-IsCounted f limit (add64 removed 1) (evict_one s).1 (evict_one-IsCounted s c))
    | inr done ↦ rw done (evict_one-IsCounted s c)
  ])
]

-- Enough fuel: the loop ends at or below the limit.
pub shrink_from-limit :
    (f limit removed : ℕ) (s : Shard)
    → IsCounted s
    → length s.entries < f
    → (shrink_from f limit removed s).1.bytes ≤ limit
unfolding shrink_from
shrink_from-limit zero limit removed s c h = omega arith
shrink_from-limit (suc f) limit removed s c h = elim (Bool-cases (ltb limit s.bytes)) [
  | inr fits ↦ ground arith
  | inl over ↦ rw over (elim (Bool-cases (evict_one s).0) [
    | inl more ↦ rw more (
        shrink_from-limit f limit (add64 removed 1) (evict_one s).1 (evict_one-IsCounted s c)
          (omega (arith, length-evict_one s more)))
    | inr done ↦ ground (arith, c.0, evict_one-empty s done)
  ])
]

pub shrink_from-budget :
    (f limit removed : ℕ) (s : Shard) → (shrink_from f limit removed s).1.budget ≡ s.budget
unfolding shrink_from
shrink_from-budget zero limit removed s = refl
shrink_from-budget (suc f) limit removed s =
    ground (arith, evict_one-budget s, shrink_from-budget f limit (add64 removed 1) (evict_one s).1)

-- Removing a node the map found.
pub remove_locked-IsCounted :
    (k : String) (n : Node) (s : Shard)
    → find_node k s.entries ≡ some n
    → IsCounted s
    → IsCounted (remove_locked n s)
unfolding remove_locked
remove_locked-IsCounted k n s e (c, h, u) =
    subst
      (λ j. IsCounted (record s { entries = unlink j s.entries; bytes = sub64 s.bytes n.bytes }))
      (sym (find_node_key k n s.entries e))
      (
        omega (arith, node_sum-unlink k n s.entries e, c, h),
        omega arith,
        λ j. omega (arith, times-unlink k j n s.entries e, u j),
      )

remove_locked-le :
    (k : String) (n : Node) (s : Shard)
    → find_node k s.entries ≡ some n
    → IsCounted s
    → (remove_locked n s).bytes ≤ s.bytes
unfolding remove_locked
remove_locked-le k n s e (c, h, u) = omega (arith, node_sum-unlink k n s.entries e, c, h)

pub remove_locked-IsCoherent :
    (k : String) (n : Node) (s : Shard)
    → find_node k s.entries ≡ some n
    → IsCoherent s
    → IsCoherent (remove_locked n s)
unfolding remove_locked
remove_locked-IsCoherent k n s e c =
    (remove_locked-IsCounted k n s e c.0, omega (arith, remove_locked-le k n s e c.0, c.1), c.2)

pub remove_found-IsCoherent :
    (k : String) (s : Shard) → IsCoherent s → IsCoherent (remove_found (find_node k s.entries) s).1
unfolding remove_found
remove_found-IsCoherent k s c = elim (Option-cases (find_node k s.entries)) [
  | inl missing ↦ rw missing c
  | inr (n, found) ↦ rw found (remove_locked-IsCoherent k n s found c)
]

node_sum-touch : (k : String) (ns : List Node) → node_sum (touch k ns) ≡ node_sum ns
unfolding touch node_sum
node_sum-touch k [] = refl
node_sum-touch k (n ∷ ns) = ground (arith, node_sum-touch k ns)

times-touch : (k j : String) (ns : List Node) → times j (touch k ns) ≡ times j ns
unfolding touch times
times-touch k j [] = refl
times-touch k j (n ∷ ns) = ground (arith, times-touch k j ns)

pub get-IsCoherent :
    (ticks : ℕ) (k : String) (s : Shard) → IsCoherent s → IsCoherent (get ticks k s).1
unfolding get get_found expire_locked
get-IsCoherent ticks k s c = elim (Option-cases (find_node k s.entries)) [
  | inl missing ↦ rw missing c
  | inr (n, found) ↦ rw found (elim (Bool-cases (is_live n.expires_at ticks)) [
    | inl live ↦ rw live (
      (
        omega (arith, node_sum-touch k s.entries, c.0.0),
        c.0.1,
        λ j. omega (arith, times-touch k j s.entries, c.0.2 j),
      ),
      c.1,
      c.2,
    )
    | inr stale ↦ rw found (rw stale (remove_locked-IsCoherent k n s found c))
  ])
]

-- The purge subtracts what it drops, whatever the count it starts from.
purge_from-count :
    (ticks : ℕ) (ns : List Node) (bytes removed rest : ℕ)
    → bytes ≡ node_sum ns + rest
    → bytes < word64
    → ((purge_from ticks ns bytes removed).1.0
        ≡ node_sum (purge_from ticks ns bytes removed).0 + rest)
      × ((purge_from ticks ns bytes removed).1.0 ≤ bytes)
unfolding purge_from node_sum
purge_from-count ticks [] bytes removed rest e h = (e, omega arith)
purge_from-count ticks (n ∷ ns) bytes removed rest e h =
    elim (Bool-cases (is_live n.expires_at ticks)) [
      | inl live ↦ rw live (
          omega (arith, (purge_from-count ticks ns bytes removed (n.bytes + rest) (omega arith) h)))
      | inr stale ↦ rw stale (
          omega (
            arith,
            (purge_from-count ticks ns (sub64 bytes n.bytes) (add64 removed 1) rest (omega arith)
                (omega arith)),
          ))
    ]

purge_from-times :
    (ticks : ℕ) (k : String) (ns : List Node) (bytes removed : ℕ)
    → times k (purge_from ticks ns bytes removed).0 ≤ times k ns
unfolding purge_from times
purge_from-times ticks k [] bytes removed = omega arith
purge_from-times ticks k (n ∷ ns) bytes removed = ground (
  arith,
  purge_from-times ticks k ns bytes removed,
  purge_from-times ticks k ns (sub64 bytes n.bytes) (add64 removed 1),
)

pub purge_expired-IsCoherent :
    (ticks : ℕ) (s : Shard) → IsCoherent s → IsCoherent (purge_expired ticks s).1
unfolding purge_expired
purge_expired-IsCoherent ticks s ((e, h, u), b, w) =
    let q = purge_from-count ticks s.entries s.bytes 0 0 (omega arith) h in
    (
      (
        omega (arith, q),
        omega (arith, q, h),
        λ k. omega (arith, u k, purge_from-times ticks k s.entries s.bytes 0),
      ),
      omega (arith, q, b),
      w,
    )
