-- ===== src/Storage/Metadata/Listing.antt =====
-- backend/src/storage/rocksdb_metadata_store.cpp: listObjects over the rows of a bucket, which the iterator
-- yields in the order of their stored keys. Seeking forwards passes over the rows before the target.
use mono_bucket.Base.{
  ℕ, zero, suc, ◌≡◌, refl, Bool, true, false, not, ◌&&◌, ◌||◌, Option, none, some, List, [], ◌∷◌,
  ◌++◌, if◌then◌else◌, length, take, drop, Bytes, IsBytes, All, ◌==◌, arith,
}
use mono_bucket.Storage.Keyspace.{after_prefix, upper_bound, separator}
use mono_bucket.Storage.Keyspace.Ranges.{lex, starts_with, upper_bound-prefix}
use mono_bucket.Storage.Metadata.{ObjectRecord}

pub record ListObjectsRequest : Type 0 where
  pub prefix : Bytes
  pub delimiter : Bytes
  pub start_after : Bytes
  pub max_keys : ℕ

pub record ListObjectsResult : Type 0 where
  pub objects : List ObjectRecord
  pub common_prefixes : List Bytes
  pub truncated : Bool
  pub next_start_after : Bytes

abbrev pub no_result : ListObjectsResult
no_result = record { objects = []; common_prefixes = []; truncated = false; next_start_after = [] }

unfoldable pub truncated_at : Bytes → ListObjectsResult
truncated_at last = record no_result { truncated = true; next_start_after = last }

-- `key.find(delimiter)`: the text up to the delimiter, and the delimiter.
unfoldable pub cut_at : Bytes → Bytes → Option Bytes
unfolding after_prefix
cut_at delimiter [] = none
cut_at delimiter (c ∷ text) = elim (after_prefix delimiter (c ∷ text)) [
  | some rest ↦ some delimiter
  | none ↦ elim (cut_at delimiter text) [ none ↦ none | some start ↦ some (c ∷ start) ]
]

unfoldable pub common_prefix : ListObjectsRequest → Bytes → Option Bytes
unfolding cut_at
common_prefix q key = elim (q.delimiter) [
  | [] ↦ none
  | c ∷ rest ↦ elim (cut_at q.delimiter (drop (length q.prefix) key)) [
    | none ↦ none
    | some start ↦ some (take (length q.prefix) key ++ start)
  ]
]

-- `ends_with`
unfoldable pub ends_with : Bytes → Bytes → Bool
unfolding starts_with
ends_with suffix [] = starts_with suffix []
ends_with suffix (c ∷ text) =
    (length (c ∷ text) == length suffix && starts_with suffix (c ∷ text)) || ends_with suffix text

unfoldable pub resume_after : Bytes → ListObjectsRequest → Bytes
unfolding ends_with
resume_after table q =
    let plain = table ++ (q.start_after ++ (separator ∷ [])) in
    if not (length q.delimiter == 0) && ends_with q.delimiter q.start_after
    then elim (upper_bound (table ++ q.start_after)) [ none ↦ plain | some next ↦ next ]
    else plain

unfoldable pub resume_point : Bytes → ListObjectsRequest → Bytes
unfolding resume_after lex
resume_point table q =
    if length q.start_after == 0 || lex q.start_after q.prefix
    then table ++ q.prefix
    else resume_after table q

-- The loop: `room` is what the page has left, `last` what was emitted last.
unfoldable pub walk :
    Bytes → ListObjectsRequest → ℕ → Bytes → Bytes → List (Bytes × ObjectRecord) → ListObjectsResult
unfolding lex starts_with common_prefix truncated_at
walk table q room target last [] = no_result
walk table q zero target last ((key, r) ∷ rows) =
    let later = walk table q zero target last rows in
    if lex (table ++ key) target
    then later
    else if starts_with q.prefix key
    then truncated_at last
    else no_result
walk table q (suc room) target last ((key, r) ∷ rows) =
    let later = walk table q (suc room) target last rows in
    let next = walk table q room target key rows in
    if lex (table ++ key) target
    then later
    else if not (starts_with q.prefix key)
    then no_result
    else elim (common_prefix q key) [
      | none ↦ record next { objects = record r { key = key } ∷ next.objects }
      | some common ↦ elim (upper_bound (table ++ common)) [
        | none ↦ record (truncated_at common) { common_prefixes = common ∷ [] }
        | some beyond ↦
            let rest = walk table q room beyond common rows in
            record rest { common_prefixes = common ∷ rest.common_prefixes }
      ]
    ]

unfoldable pub any_under : Bytes → List (Bytes × ObjectRecord) → Bool
unfolding starts_with
any_under prefix [] = false
any_under prefix ((key, r) ∷ rows) = starts_with prefix key || any_under prefix rows

unfoldable pub list_objects :
    Bytes → ListObjectsRequest → List (Bytes × ObjectRecord) → ListObjectsResult
unfolding walk resume_point any_under
list_objects table q rows =
    if q.max_keys == 0
    then record no_result { truncated = any_under q.prefix rows }
    else walk table q q.max_keys (resume_point table q) [] rows

starts-append :
    (table p key : Bytes)
    → starts_with p key ≡ true
    → starts_with (table ++ p) (table ++ key) ≡ true
unfolding starts_with after_prefix
starts-append [] p key h = h
starts-append (c ∷ table) p key h = ground (arith, starts-append table p key h)

before_bound :
    (table p u key : Bytes)
    → IsBytes (table ++ key)
    → upper_bound (table ++ p) ≡ some u
    → starts_with p key ≡ true
    → lex (table ++ key) u ≡ true
before_bound table p u key bytes bound h =
    let e = upper_bound-prefix (table ++ p) u (table ++ key) bytes bound in
    let t = starts-append table p key h in ground arith

skips_all :
    (table : Bytes) (q : ListObjectsRequest) (room : ℕ) (p u last : Bytes)
    (rows : List (Bytes × ObjectRecord))
    → upper_bound (table ++ p) ≡ some u
    → All (λ r. IsBytes (table ++ r.0) × (starts_with p (r.0) ≡ true)) rows
    → walk table q room u last rows ≡ no_result
unfolding walk
skips_all table q room p u last [] bound under = refl
skips_all table q zero p u last ((key, r) ∷ rows) bound ((bytes, h), under) =
    rw (before_bound table p u key bytes bound h) (skips_all table q zero p u last rows bound under)
skips_all table q (suc room) p u last ((key, r) ∷ rows) bound ((bytes, h), under) =
    rw (before_bound table p u key bytes bound h)
      (skips_all table q (suc room) p u last rows bound under)

-- A page of at least one key that starts after a text that is not before the prefix and ends with the
-- delimiter is empty and the last one, where every key of the bucket starts with that text.
pub list_objects-skips :
    (table u : Bytes) (q : ListObjectsRequest) (rows : List (Bytes × ObjectRecord))
    → (q.max_keys == 0) ≡ false
    → (length q.start_after == 0 || lex q.start_after q.prefix) ≡ false
    → (not (length q.delimiter == 0) && ends_with q.delimiter q.start_after) ≡ true
    → upper_bound (table ++ q.start_after) ≡ some u
    → All (λ r. IsBytes (table ++ r.0) × (starts_with q.start_after (r.0) ≡ true)) rows
    → list_objects table q rows ≡ no_result
unfolding list_objects resume_point resume_after
list_objects-skips table u q rows some_keys after ends bound under =
    rw (some_keys, after, ends, bound, resume_after)
      (skips_all table q q.max_keys q.start_after u [] rows bound under)
