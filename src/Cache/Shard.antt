-- ===== src/Cache/Shard.antt =====
-- backend/src/cache/memory_cache.cpp: one shard, its list of entries and its eviction. The map and
-- the linked list hold the same nodes: `entries` is that list from `tail` to `head`, so that the
-- next candidate for eviction comes first and `pushFront` appends. A key is the text of its bytes,
-- one character for each, and the clock's reading is an argument.
pub mod Budget
pub mod Coherent
pub mod Run
pub mod SecondChance
use mono_bucket.Base.{
  ℕ, zero, suc, ◌+◌, ◌-◌, ◌*◌, ◌^◌, String, Bool, true, false, Option, none, some, List, [], ◌∷◌,
  ◌++◌, ltb, leb, if◌then◌else◌, add64, sub64, str_eq, length, ℤ, pos, negsuc, Bytes, codes,
}

-- kEntryOverheadBytes
abbrev pub entry_overhead : ℕ
entry_overhead = 128

-- kNever
abbrev pub never : ℤ
never = pos (2 ^ 63 - 1)

-- expiryFrom: `ticks` is the clock in milliseconds, `ttl` is in seconds.
unfoldable pub expiry_from : ℕ → ℤ → ℤ
expiry_from ticks (pos zero) = never
expiry_from ticks (pos (suc s)) = pos (ticks + suc s * 1000)
expiry_from ticks (negsuc s) =
    if leb (suc s * 1000) ticks
    then pos (ticks - suc s * 1000)
    else negsuc (suc s * 1000 - ticks - 1)

-- `expiresAt > ticks`
unfoldable pub is_live : ℤ → ℕ → Bool
is_live (pos t) ticks = ltb ticks t
is_live (negsuc t) ticks = false

pub record Node : Type 0 where
  pub key : String
  pub value : Bytes
  pub bytes : ℕ
  pub expires_at : ℤ
  pub accessed : Bool

pub record Shard : Type 0 where
  pub entries : List Node
  pub bytes : ℕ
  pub budget : ℕ
  pub hits : ℕ
  pub misses : ℕ
  pub evictions : ℕ
  pub expirations : ℕ
  pub rejections : ℕ

-- map.find(key)
unfoldable pub find_node : String → List Node → Option Node
find_node k [] = none
find_node k (n ∷ ns) = if str_eq n.key k then some n else find_node k ns

-- unlink: the one node under `key` leaves the list.
unfoldable pub unlink : String → List Node → List Node
unlink k [] = []
unlink k (n ∷ ns) = if str_eq n.key k then ns else n ∷ unlink k ns

-- pushFront
unfoldable pub push_front : Node → List Node → List Node
push_front n ns = ns ++ (n ∷ [])

-- removeLocked
unfoldable pub remove_locked : Node → Shard → Shard
unfolding unlink
remove_locked n s = record s { entries = unlink n.key s.entries; bytes = sub64 s.bytes n.bytes }

abbrev pub cleared : Node → Node
cleared n = record n { accessed = false }

-- The loop of evictOneLocked: the list after the reprieves, its first node being the victim.
unfoldable pub reprieve : ℕ → List Node → List Node
unfolding push_front
reprieve r [] = []
reprieve zero (n ∷ ns) = n ∷ ns
reprieve (suc r) (n ∷ ns) =
    let rest = reprieve r (push_front (cleared n) ns) in if n.accessed then rest else n ∷ ns

unfoldable pub evict_first : List Node → Shard → Bool × Shard
unfolding remove_locked
evict_first [] s = (false, s)
evict_first (n ∷ ns) s =
    let t = remove_locked n (record s { entries = n ∷ ns }) in
    (true, record t { evictions = add64 t.evictions 1 })

-- evictOneLocked
unfoldable pub evict_one : Shard → Bool × Shard
unfolding reprieve evict_first
evict_one s = evict_first (reprieve (length s.entries) s.entries) s

-- `while (shard.bytes > limit && evictOneLocked(shard)) ++removed`, on fuel.
unfoldable pub shrink_from : ℕ → ℕ → ℕ → Shard → ℕ × Shard
unfolding evict_one
shrink_from zero limit removed s = (removed, s)
shrink_from (suc f) limit removed s =
    let rest = shrink_from f limit (add64 removed 1) (evict_one s).1 in
    if ltb limit s.bytes
    then (if (evict_one s).0 then rest else (removed, (evict_one s).1))
    else (removed, s)

unfoldable pub shrink : ℕ → ℕ → Shard → ℕ × Shard
unfolding shrink_from
shrink limit removed s = shrink_from (suc (length s.entries)) limit removed s

-- The nodes and the byte count that purgeExpiredLocked leaves.
unfoldable pub purge_from : ℕ → List Node → ℕ → ℕ → List Node × (ℕ × ℕ)
unfolding is_live
purge_from ticks [] bytes removed = ([], (bytes, removed))
purge_from ticks (n ∷ ns) bytes removed =
    let kept = purge_from ticks ns bytes removed in
    let purged = purge_from ticks ns (sub64 bytes n.bytes) (add64 removed 1) in
    if is_live n.expires_at ticks then (n ∷ kept.0, kept.1) else purged

-- purgeExpiredLocked
unfoldable pub purge_expired : ℕ → Shard → ℕ × Shard
unfolding purge_from
purge_expired ticks s =
    let out = purge_from ticks s.entries s.bytes 0 in
    (
      out.1.1,
      record s { entries = out.0; bytes = out.1.0; expirations = add64 s.expirations out.1.1 },
    )

unfoldable pub touch : String → List Node → List Node
touch k [] = []
touch k (n ∷ ns) = if str_eq n.key k then record n { accessed = true } ∷ ns else n ∷ touch k ns

-- MemoryCache::get under the exclusive lock: an entry that is still expired goes.
unfoldable pub expire_locked : ℕ → Option Node → Shard → Shard
unfolding is_live remove_locked
expire_locked ticks none s = s
expire_locked ticks (some n) s =
    if is_live n.expires_at ticks
    then s
    else let t = remove_locked n s in record t { expirations = add64 t.expirations 1 }

-- MemoryCache::get under the shared lock, and then the rest of it.
unfoldable pub get_found : ℕ → String → Option Node → Shard → Option Bytes × Shard
unfolding is_live touch expire_locked
get_found ticks k none s = (none, record s { misses = add64 s.misses 1 })
get_found ticks k (some n) s =
    if is_live n.expires_at ticks
    then (some n.value, record s { entries = touch k s.entries; hits = add64 s.hits 1 })
    else let t = expire_locked ticks (find_node k s.entries) s in
      (none, record t { misses = add64 t.misses 1 })

unfoldable pub get : ℕ → String → Shard → Option Bytes × Shard
unfolding get_found find_node
get ticks k s = get_found ticks k (find_node k s.entries) s

unfoldable pub remove_found : Option Node → Shard → Bool × Shard
unfolding remove_locked
remove_found none s = (false, s)
remove_found (some n) s = (true, remove_locked n s)

-- MemoryCache::del
unfoldable pub del : String → Shard → Bool × Shard
unfolding remove_found find_node
del k s = remove_found (find_node k s.entries) s

-- The charge of an entry.
unfoldable pub charge : String → Bytes → ℕ
charge k v = add64 (add64 (length (codes k)) (length v)) entry_overhead

unfoldable pub place : Node → Option Node → Shard → Shard
unfolding unlink push_front
place n (some old) s = record s {
  entries = push_front n (unlink n.key s.entries);
  bytes = add64 (sub64 s.bytes old.bytes) n.bytes;
}
place n none s = record s { entries = push_front n s.entries; bytes = add64 s.bytes n.bytes }

unfoldable pub set_value : ℕ → String → Bytes → ℤ → Shard → Shard
unfolding charge expiry_from find_node remove_found place shrink
set_value ticks k v ttl s =
    let n : Node = record {
      key = k;
      value = v;
      bytes = charge k v;
      expires_at = expiry_from ticks ttl;
      accessed = false;
    } in
    if ltb s.budget n.bytes
    then (let t = (remove_found (find_node k s.entries) s).1 in
        record t { rejections = add64 t.rejections 1 })
    else (let t = place n (find_node k s.entries) s in (shrink t.budget 0 t).1)

-- MemoryCache::set: a null value deletes.
unfoldable pub set : ℕ → String → Option Bytes → ℤ → Shard → Shard
unfolding set_value del
set ticks k none ttl s = (del k s).1
set ticks k (some v) ttl s = set_value ticks k v ttl s

-- The body of the loop of MemoryCache::evict.
unfoldable pub evict_shard : ℕ → ℕ → ℕ → Shard → ℕ × Shard
unfolding purge_expired shrink
evict_shard limit ticks removed s =
    let purged = purge_expired ticks s in shrink limit (add64 removed purged.0) purged.1

-- The body of the loop of MemoryCache::clear.
unfoldable pub clear_shard : Shard → Shard
clear_shard s = record s { entries = []; bytes = 0 }
