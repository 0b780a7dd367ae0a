-- ===== src/Cache/Shard/Run.antt =====
-- A shard through any sequence of calls (memory_cache.cpp: get, set, del, evict, clear).
use mono_bucket.Base.{
  ℕ, suc, ◌^◌, ◌≤◌, ◌<◌, ◌≡◌, refl, sym, subst, String, false, Option, none, some, List, [], ◌∷◌,
  ltb, leb, ◌∙◌, add64, length, ℤ, Bytes, arith, eq_iff, Bool-cases, Option-cases, inl, inr,
}
use mono_bucket.Cache.Shard.{
  Node, Shard, find_node, unlink, remove_locked, shrink_from, shrink, purge_expired, get, get_found,
  expire_locked, remove_found, del, charge, place, set_value, set, evict_shard, clear_shard,
  expiry_from,
}
use mono_bucket.Cache.Shard.Budget.{
  node_sum, times, IsCounted, IsCoherent, node_sum-push_front, times-push_front, node_sum-unlink,
  times-unlink, find_node_missing,
}
use mono_bucket.Cache.Shard.Coherent.{
  shrink_from-IsCounted, shrink_from-limit, shrink_from-budget, remove_found-IsCoherent,
  get-IsCoherent, purge_expired-IsCoherent,
}

pub data Call : Type 0 where
  get_call : String → Call
  set_call : String → Option Bytes → ℤ → Call
  del_call : String → Call
  evict_call : ℕ → Call
  clear_call : Call

-- One call on the shard, at a reading of the clock.
unfoldable pub perform : ℕ → Call → Shard → Shard
perform ticks (get_call k) s = (get ticks k s).1
perform ticks (set_call k v ttl) s = set ticks k v ttl s
perform ticks (del_call k) s = (del k s).1
perform ticks (evict_call limit) s = (evict_shard limit ticks 0 s).1
perform ticks clear_call s = clear_shard s

unfoldable pub perform_all : List (ℕ × Call) → Shard → Shard
perform_all [] s = s
perform_all ((ticks, c) ∷ cs) s = perform_all cs (perform ticks c s)

del-IsCoherent : (k : String) (s : Shard) → IsCoherent s → IsCoherent (del k s).1
unfolding del
del-IsCoherent k s c = remove_found-IsCoherent k s c

-- A node that fits the budget makes the count exact, if for the moment too large.
place-IsCounted :
    (n : Node) (s : Shard)
    → IsCoherent s
    → n.bytes ≤ s.budget
    → IsCounted (place n (find_node n.key s.entries) s)
unfolding place
place-IsCounted n s ((e, h, u), b, w) fits = elim (Option-cases (find_node n.key s.entries)) [
  | inl missing ↦ rw missing (
    omega (arith, node_sum-push_front n s.entries),
    omega arith,
    λ k. ground (
      arith,
      times-push_front k n s.entries,
      u k,
      find_node_missing n.key s.entries missing,
      eq_iff n.key k,
    ),
  )
  | inr (old, found) ↦ rw found (
    omega (
      arith,
      node_sum-push_front n (unlink n.key s.entries),
      node_sum-unlink n.key old s.entries found,
    ),
    omega arith,
    λ k. omega (
      arith,
      times-push_front k n (unlink n.key s.entries),
      u k,
      times-unlink n.key k old s.entries found,
    ),
  )
]

place-budget : (n : Node) (o : Option Node) (s : Shard) → (place n o s).budget ≡ s.budget
unfolding place
place-budget n none s = refl
place-budget n (some old) s = refl

shrink-IsCoherent :
    (removed : ℕ) (limit : ℕ) (s : Shard)
    → IsCounted s
    → limit ≤ s.budget
    → s.budget < 2 ^ 63
    → IsCoherent (shrink limit removed s).1
unfolding shrink
shrink-IsCoherent removed limit s c b w = (
  shrink_from-IsCounted (suc (length s.entries)) limit removed s c,
  omega (
    arith,
    shrink_from-limit (suc (length s.entries)) limit removed s c (omega arith),
    shrink_from-budget (suc (length s.entries)) limit removed s,
  ),
  omega (arith, shrink_from-budget (suc (length s.entries)) limit removed s),
)

set_value-IsCoherent :
    (ticks : ℕ) (k : String) (v : Bytes) (ttl : ℤ) (s : Shard)
    → IsCoherent s
    → IsCoherent (set_value ticks k v ttl s)
unfolding set_value
set_value-IsCoherent ticks k v ttl s c = elim (Bool-cases (ltb s.budget (charge k v))) [
  | inl large ↦ rw large (remove_found-IsCoherent k s c)
  | inr fits ↦ rw fits (
      let n : Node = record {
        key = k;
        value = v;
        bytes = charge k v;
        expires_at = expiry_from ticks ttl;
        accessed = false;
      } in
      shrink-IsCoherent 0 (place n (find_node k s.entries) s).budget
        (place n (find_node k s.entries) s) (place-IsCounted n s c (ground arith)) (omega arith)
        (omega (arith, place-budget n (find_node k s.entries) s, c.2)))
]

set-IsCoherent :
    (ticks : ℕ) (k : String) (v : Option Bytes) (ttl : ℤ) (s : Shard)
    → IsCoherent s
    → IsCoherent (set ticks k v ttl s)
unfolding set
set-IsCoherent ticks k none ttl s c = del-IsCoherent k s c
set-IsCoherent ticks k (some v) ttl s c = set_value-IsCoherent ticks k v ttl s c

purge_expired-budget : (ticks : ℕ) (s : Shard) → (purge_expired ticks s).1.budget ≡ s.budget
unfolding purge_expired
purge_expired-budget ticks s = refl

shrink_room : (removed limit : ℕ) (s : Shard) → s.bytes ≤ limit → (shrink limit removed s).1 ≡ s
unfolding shrink shrink_from
shrink_room removed limit s h = ground arith

pub evict_shard-IsCoherent :
    (limit ticks removed : ℕ) (s : Shard)
    → IsCoherent s
    → IsCoherent (evict_shard limit ticks removed s).1
unfolding evict_shard
evict_shard-IsCoherent limit ticks removed s c =
    let t = (purge_expired ticks s).1 in
    let n = add64 removed (purge_expired ticks s).0 in
    let d : IsCoherent t = purge_expired-IsCoherent ticks s c in
    elim (Bool-cases (leb limit t.budget)) [
      | inl low ↦ shrink-IsCoherent n limit t d.0 (ground arith) d.2
      | inr high ↦ subst (λ x. IsCoherent x) (sym (shrink_room n limit t (ground (arith, d.1)))) d
    ]

-- MemoryCache::evict brings each shard to the limit it was given, whatever that is.
pub evict_shard-limit :
    (limit ticks removed : ℕ) (s : Shard)
    → IsCoherent s
    → (evict_shard limit ticks removed s).1.bytes ≤ limit
unfolding evict_shard shrink
evict_shard-limit limit ticks removed s c =
    let t = (purge_expired ticks s).1 in
    shrink_from-limit (suc (length t.entries)) limit (add64 removed (purge_expired ticks s).0) t
      (purge_expired-IsCoherent ticks s c).0 (omega arith)

clear_shard-IsCoherent : (s : Shard) → IsCoherent s → IsCoherent (clear_shard s)
unfolding clear_shard node_sum times
clear_shard-IsCoherent s c = ((refl, omega arith, λ k. omega arith), omega arith, c.2)

pub perform-IsCoherent :
    (ticks : ℕ) (c : Call) (s : Shard) → IsCoherent s → IsCoherent (perform ticks c s)
unfolding perform
perform-IsCoherent ticks (get_call k) s h = get-IsCoherent ticks k s h
perform-IsCoherent ticks (set_call k v ttl) s h = set-IsCoherent ticks k v ttl s h
perform-IsCoherent ticks (del_call k) s h = del-IsCoherent k s h
perform-IsCoherent ticks (evict_call limit) s h = evict_shard-IsCoherent limit ticks 0 s h
perform-IsCoherent ticks clear_call s h = clear_shard-IsCoherent s h

-- From a coherent shard, every sequence of calls ends in a coherent one: its byte count is the sum over
-- its entries and at most its budget, which is below 2 ^ 63, and no key stands twice.
pub perform_all-IsCoherent :
    (calls : List (ℕ × Call)) (s : Shard) → IsCoherent s → IsCoherent (perform_all calls s)
unfolding perform_all
perform_all-IsCoherent [] s h = h
perform_all-IsCoherent ((ticks, c) ∷ cs) s h =
    perform_all-IsCoherent cs (perform ticks c s) (perform-IsCoherent ticks c s h)

-- No call changes the budget.
remove_found-budget : (o : Option Node) (s : Shard) → (remove_found o s).1.budget ≡ s.budget
unfolding remove_found remove_locked
remove_found-budget none s = refl
remove_found-budget (some n) s = refl

get-budget : (ticks : ℕ) (k : String) (s : Shard) → (get ticks k s).1.budget ≡ s.budget
unfolding get get_found expire_locked remove_locked
get-budget ticks k s = elim (Option-cases (find_node k s.entries)) [
  | inl missing ↦ rw missing refl
  | inr (n, found) ↦ rw found (ground arith)
]

set-budget :
    (ticks : ℕ) (k : String) (v : Option Bytes) (ttl : ℤ) (s : Shard)
    → (set ticks k v ttl s).budget ≡ s.budget
unfolding set set_value del shrink
set-budget ticks k none ttl s = remove_found-budget (find_node k s.entries) s
set-budget ticks k (some v) ttl s = elim (Bool-cases (ltb s.budget (charge k v))) [
  | inl large ↦ rw large (remove_found-budget (find_node k s.entries) s)
  | inr fits ↦ rw fits (
      let n : Node = record {
        key = k;
        value = v;
        bytes = charge k v;
        expires_at = expiry_from ticks ttl;
        accessed = false;
      } in
      let t = place n (find_node k s.entries) s in
      shrink_from-budget (suc (length t.entries)) t.budget 0 t
      ∙ place-budget n (find_node k s.entries) s)
]

pub evict_shard-budget :
    (limit ticks removed : ℕ) (s : Shard) → (evict_shard limit ticks removed s).1.budget ≡ s.budget
unfolding evict_shard purge_expired shrink
evict_shard-budget limit ticks removed s =
    let t = (purge_expired ticks s).1 in
    shrink_from-budget (suc (length t.entries)) limit (add64 removed (purge_expired ticks s).0) t

pub perform-budget : (ticks : ℕ) (c : Call) (s : Shard) → (perform ticks c s).budget ≡ s.budget
unfolding perform del clear_shard
perform-budget ticks (get_call k) s = get-budget ticks k s
perform-budget ticks (set_call k v ttl) s = set-budget ticks k v ttl s
perform-budget ticks (del_call k) s = remove_found-budget (find_node k s.entries) s
perform-budget ticks (evict_call limit) s = evict_shard-budget limit ticks 0 s
perform-budget ticks clear_call s = refl
