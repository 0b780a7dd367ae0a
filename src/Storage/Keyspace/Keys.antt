-- ===== src/Storage/Keyspace/Keys.antt =====
-- What is recovered from stored keys (keyspace.cpp: objectKey, uploadKeyParts, partNumber,
-- auditSequence).
use mono_bucket.Base.{
  ℕ, ◌^◌, ◌<◌, none, some, [], ◌∷◌, ◌++◌, Bytes, ◌≡◌, ◌≢◌, refl, sym, ap, ◌∙◌, arith, All, ◌↔◌,
  subst,
}
use mathlib.Core.List.{append_assoc}
use mono_bucket.Storage.Keyspace.{
  separator, object_prefix, prefix_of, object, upload_by_key, part, audit, big_endian,
  big_endian_from, audit_sequence, after_prefix, object_key, split_step, split_last, split_rest,
  upload_key_parts, number_of, part_number, upload_by_key_prefix, part_prefix,
}

-- No NUL.
abbrev pub IsPlain : Bytes → Type 0
IsPlain = All (λ b. b ≢ separator)

after_prefix-append : (p s : Bytes) → after_prefix p (p ++ s) ≡ some s
unfolding after_prefix
after_prefix-append [] s = refl
after_prefix-append (b ∷ p) s = ground (arith, after_prefix-append p s)

-- A name closed by NUL is a prefix only of what was built from it.
closed_prefix :
    (n m s : Bytes)
    → IsPlain n
    → IsPlain m
    → (r : Bytes) → after_prefix (n ++ (separator ∷ [])) (m ++ (separator ∷ s)) ≡ some r
    → (n ≡ m) × (r ≡ s)
unfolding after_prefix
closed_prefix [] [] s hn hm r e = ground arith
closed_prefix [] (b ∷ m) s hn (h, hm) r e = ground arith
closed_prefix (c ∷ n) [] s (h, hn) hm r e = ground arith
closed_prefix (c ∷ n) (b ∷ m) s (h, hn) (g, hm) r e = ground (arith, closed_prefix n m s hn hm r)

split_last_plain : (s : Bytes) → IsPlain s → split_last s ≡ none
unfolding split_last split_step
split_last_plain [] h = refl
split_last_plain (b ∷ s) (h, hs) = ground (arith, split_last_plain s hs)

split_last-append : (k s : Bytes) → IsPlain s → split_last (k ++ (separator ∷ s)) ≡ some (k, s)
unfolding split_last split_step
split_last-append [] s h = rw (split_last_plain s h) refl
split_last-append (b ∷ k) s h = rw (split_last-append k s h) refl

-- A bucket recovers from the key of an upload the object key and the upload id it was made of, where
-- the id has no NUL.
pub upload_key_parts-upload_by_key :
    (b k id : Bytes) → IsPlain id → upload_key_parts (upload_by_key b k id) b ≡ some (k, id)
unfolding upload_key_parts upload_by_key split_rest
upload_key_parts-upload_by_key b k id h =
    rw (after_prefix-append (upload_by_key_prefix b) (k ++ (separator ∷ id)))
      (split_last-append k id h)

-- Four bytes hold a part number.
pub part_number-part : (id : Bytes) (n : ℕ) → n < 2 ^ 32 → part_number (part id n) id ≡ some n
unfolding part_number part number_of big_endian big_endian_from
part_number-part id n h =
    rw (after_prefix-append (part_prefix id) (big_endian 4 n)) (ap (λ m. some m) (omega arith))

pub audit_sequence-audit : (n : ℕ) → n < 2 ^ 64 → audit_sequence (audit n) ≡ some n
unfolding audit_sequence audit big_endian big_endian_from
audit_sequence-audit n h = ap (λ m. some m) (omega arith)

found :
    (b c k : Bytes) → b ≡ c → after_prefix (b ++ (separator ∷ [])) (c ++ (separator ∷ k)) ≡ some k
found b c k e =
    subst (λ x. after_prefix (b ++ (separator ∷ [])) (x ++ (separator ∷ k)) ≡ some k) e
      (ap (λ x. after_prefix (b ++ (separator ∷ [])) x) (sym (append_assoc b (separator ∷ []) k))
        ∙ after_prefix-append (b ++ (separator ∷ [])) k)

-- For names without NUL, the object key that a bucket recovers from a key stored for a bucket is there
-- exactly where the two buckets are one, and it is then the object key that was stored.
pub object_key-object_iff :
    (b c k r : Bytes)
    → IsPlain b
    → IsPlain c
    → (object_key (object c k) b ≡ some r) ↔ ((b ≡ c) × (k ≡ r))
unfolding object_key object object_prefix prefix_of after_prefix
object_key-object_iff b c k r hb hc = rw (append_assoc c (separator ∷ []) k) (
  (λ e. let q = closed_prefix b c k hb hc r e in (q.0, sym q.1)),
  (λ q. found b c k q.0 ∙ ap (λ x. some x) q.1),
)
