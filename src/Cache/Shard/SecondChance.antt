-- ===== src/Cache/Shard/SecondChance.antt =====
-- Which entries an insertion leaves (memory_cache.cpp: set, evictOneLocked, get).
use mathlib.Core.List.{append-nil, append_assoc}
use mono_bucket.Base.{
  ℕ, zero, suc, ◌+◌, ◌≤◌, ◌<◌, ◌≡◌, refl, sym, ap, String, true, false, none, some, List, [], ◌∷◌,
  ◌++◌, map, ltb, lt→ltb, add64, sub64, length, ℤ, Bytes, arith, eq_iff, length-append, All, ◌∙◌,
}
use mono_bucket.Cache.Shard.{
  Node, Shard, find_node, unlink, push_front, remove_locked, cleared, reprieve, evict_first,
  evict_one, shrink_from, shrink, get_found, get, charge, place, set_value, set, expiry_from,
  is_live,
}
use mono_bucket.Cache.Shard.Budget.{times, IsCoherent, find_node_missing}

find_node-push_front :
    (n : Node) (ns : List Node) → times n.key ns ≡ 0 → find_node n.key (push_front n ns) ≡ some n
unfolding find_node push_front times
find_node-push_front n [] h = ground (arith, eq_iff n.key n.key)
find_node-push_front n (m ∷ ns) h = ground (arith, find_node-push_front n ns)

abbrev pub IsHot : List Node → Type 0
IsHot = All (λ n. n.accessed ≡ true)

-- Where every entry has been read since it was inserted, the reprieves pass over them all.
reprieve_hot :
    (hot rest : List Node) (r m : ℕ)
    → IsHot hot
    → m ≡ length hot + r
    → reprieve m (hot ++ rest) ≡ reprieve r (rest ++ map cleared hot)
unfolding reprieve push_front
reprieve_hot [] rest r m h e =
    ap (λ k. reprieve k rest) (omega arith) ∙ ap (λ ns. reprieve r ns) (sym (append-nil rest))
reprieve_hot (n ∷ hot) rest r zero h e = absurd (omega arith)
reprieve_hot (n ∷ hot) rest r (suc m) (a, h) e = rw a (
    ap (λ ns. reprieve m ns) (append_assoc hot rest (cleared n ∷ []))
    ∙ reprieve_hot hot (rest ++ (cleared n ∷ [])) r m h (omega arith)
    ∙ ap (λ ns. reprieve r ns) (append_assoc rest (cleared n ∷ []) (map cleared hot)))

-- So a colder one at the end is taken first.
reprieve_cold :
    (hot : List Node) (n : Node)
    → IsHot hot
    → n.accessed ≡ false
    → reprieve (length (push_front n hot)) (push_front n hot) ≡ n ∷ map cleared hot
unfolding reprieve push_front
reprieve_cold hot n h cold =
    reprieve_hot hot (n ∷ []) 1 (length (push_front n hot)) h (length-append hot (n ∷ []))
    ∙ rw cold refl

evict_cold :
    (ns : List Node) (n : Node) (t : Shard)
    → reprieve (length t.entries) t.entries ≡ n ∷ ns
    → ((evict_one t).0 ≡ true)
      × ((evict_one t).1.entries ≡ ns)
      × ((evict_one t).1.bytes ≡ sub64 t.bytes n.bytes)
unfolding evict_one evict_first remove_locked unlink
evict_cold ns n t e = ground (arith, eq_iff n.key n.key)

shrink_from_room :
    (f limit removed : ℕ) (s : Shard) → s.bytes ≤ limit → (shrink_from f limit removed s).1 ≡ s
unfolding shrink_from
shrink_from_room zero limit removed s h = refl
shrink_from_room (suc f) limit removed s h = ground arith

shrink_once :
    (limit removed : ℕ) (t : Shard)
    → ltb limit t.bytes ≡ true
    → ((evict_one t).0 ≡ true)
    → (evict_one t).1.bytes ≤ limit
    → (shrink limit removed t).1 ≡ (evict_one t).1
unfolding shrink shrink_from
shrink_once limit removed t over more room =
    ground (arith, shrink_from_room (length t.entries) limit (add64 removed 1) (evict_one t).1 room)

cleared-times : (k : String) (ns : List Node) → times k (map cleared ns) ≡ times k ns
unfolding times
cleared-times k [] = refl
cleared-times k (n ∷ ns) = ground (arith, cleared-times k ns)

missing_node : (k : String) (ns : List Node) → times k ns ≡ 0 → find_node k ns ≡ none
unfolding times find_node
missing_node k [] h = refl
missing_node k (n ∷ ns) h = ground (arith, missing_node k ns)

missing_get :
    (ticks : ℕ) (k : String) (s : Shard) → times k s.entries ≡ 0 → (get ticks k s).0 ≡ none
unfolding get get_found
missing_get ticks k s h = rw (missing_node k s.entries h) refl

abbrev new_node : ℕ → String → Bytes → ℤ → Node
new_node ticks k v ttl = record {
  key = k;
  value = v;
  bytes = charge k v;
  expires_at = expiry_from ticks ttl;
  accessed = false;
}

module _ (ticks : ℕ) (k : String) (v : Bytes) (ttl : ℤ) (s : Shard) (coherent : IsCoherent s)
    (fresh : find_node k s.entries ≡ none) (fits : charge k v ≤ s.budget) where
  abbrev placed : Shard
  placed = place (new_node ticks k v ttl) none s

  set_shrinks : set ticks k (some v) ttl s ≡ (shrink s.budget 0 placed).1
  unfolding set set_value place
  set_shrinks = rw fresh (ground arith)

  module _ (hot : IsHot s.entries) (full : s.budget < s.bytes + charge k v) where
    hot_order :
        reprieve (length placed.entries) placed.entries
        ≡ new_node ticks k v ttl ∷ map cleared s.entries
    unfolding place
    hot_order = reprieve_cold s.entries (new_node ticks k v ttl) hot refl

    set_hot : ((set ticks k (some v) ttl s).entries ≡ map cleared s.entries)
    unfolding place
    set_hot =
        let e = evict_cold (map cleared s.entries) (new_node ticks k v ttl) placed hot_order in
        ap (λ x. x.entries)
          (set_shrinks
            ∙ shrink_once s.budget 0 placed (lt→ltb s.budget placed.bytes (omega (arith, coherent)))
                e.0 (omega (arith, coherent, e.2)))
        ∙ e.1

    -- An insertion of a new key, of a charge within the budget, into a coherent shard whose entries are
    -- all marked as read and which has not the room for it, leaves the old entries without their marks,
    -- and every get of the new key that follows is a miss.
    pub set-evicts_itself :
        ((set ticks k (some v) ttl s).entries ≡ map cleared s.entries)
        × ((now : ℕ) → (get now k (set ticks k (some v) ttl s)).0 ≡ none)
    set-evicts_itself = (
      set_hot,
      λ now.
          missing_get now k (set ticks k (some v) ttl s)
            (rw set_hot (cleared-times k s.entries ∙ find_node_missing k s.entries fresh)),
    )

  module _ (room : s.bytes + charge k v ≤ s.budget) where
    -- An insertion of a new key into a coherent shard with room for it evicts nothing, and a get that
    -- follows it before the deadline returns the value.
    pub set-get :
        (now : ℕ)
        → is_live (expiry_from ticks ttl) now ≡ true
        → ((set ticks k (some v) ttl s).evictions ≡ s.evictions)
          × ((get now k (set ticks k (some v) ttl s)).0 ≡ some v)
    unfolding get get_found place shrink
    set-get now live =
        let e =
          set_shrinks
          ∙ shrink_from_room (suc (length placed.entries)) s.budget 0 placed
              (omega (arith, coherent)) in
        (
          ap (λ x. x.evictions) e,
          rw e (
              rw
                (find_node-push_front (new_node ticks k v ttl) s.entries
                  (find_node_missing k s.entries fresh))
                (rw live refl)),
        )
