-- ===== src/S3/Cors/Handlers/Changes.antt =====
-- backend/src/s3/cors.cpp and storage/rocksdb_metadata_store.cpp: what a change of the rules leaves for
-- the requests after it.
use mono_bucket.Base.{
  ◌<◌, ◌≡◌, refl, ◌∙◌, ap, subst, inl, inr, String, true, none, some, List, ◌∷◌, eq_iff, Bytes,
  codes, length, word64, lookup, insert, lookup-insert, lookup-erase, Result, ok, err, arith,
  Bool-cases,
}
use mono_bucket.S3.Buckets.{
  Context, Thrown, row_error, bucket_cache_key, load_bucket, require_bucket, invalidate_bucket,
}
use mono_bucket.S3.Cors.Handlers.{store_cors, put_found, handle_put_bucket_cors}
use mono_bucket.S3.Cors.Unreadable.{decode_cors_rules-unreadable}
use mono_bucket.S3.Cors.Validation.{validate_cors_rules}
use mono_bucket.S3.Names.{is_valid_bucket_name}
use mono_bucket.Storage.Codec.{list_too_long}
use mono_bucket.Storage.Records.{CorsRule, BucketRecord}
use mono_bucket.Storage.Records.RoundTrip.{IsText, IsRules}
use mono_bucket.Storage.Records.Rows.{unreadable_row, encode_row}
use mono_bucket.Storage.Records.Rows.Laws.{
  IsStorable, fields_after, decode_row-encode_row, decode_row-unreadable,
}

-- A bucket that is found has a valid name, and finding it changes no row.
found_valid :
    (name : String) (c c' : Context) (b : BucketRecord)
    → require_bucket name c ≡ (ok b, c')
    → is_valid_bucket_name (codes name) ≡ true
unfolding require_bucket
found_valid name c c' b h = elim (Bool-cases (is_valid_bucket_name (codes name))) [
  | inl t ↦ t
  | inr f ↦ absurd (grind arith)
]

require_bucket-buckets :
    (name : String) (c : Context) → (require_bucket name c).1.buckets ≡ c.buckets
unfolding require_bucket load_bucket
require_bucket-buckets name c = ground arith

-- A context that holds a row for a bucket with a valid name, and nothing in the cache for it.
pub record IsFresh (name : String) (row : Bytes) (c : Context) : Type 0 where
  pub valid : is_valid_bucket_name (codes name) ≡ true
  pub cold : lookup (bucket_cache_key name) c.cache ≡ none
  pub stored : lookup name c.buckets ≡ some row

pub require_bucket-IsFresh :
    (name : String) (row : Bytes) (c : Context)
    → IsFresh name row c
    → (require_bucket name c).0 ≡ (load_bucket name (some row) c).0
unfolding require_bucket
require_bucket-IsFresh name row c f = rw (f.valid, f.cold, f.stored) refl

-- The change of a storable record, and the entry of the bucket leaving the cache.
changed : String → List CorsRule → BucketRecord → Context → Context
changed bucket rules r d = invalidate_bucket bucket (record d {
  buckets = insert bucket (encode_row (record r { name = bucket; cors = rules })) d.buckets;
})

changed-IsFresh :
    (bucket : String) (rules : List CorsRule) (r : BucketRecord) (d : Context)
    → is_valid_bucket_name (codes bucket) ≡ true
    → IsFresh bucket
        (encode_row (record r { name = bucket; cors = rules }))
        (changed bucket rules r d)
unfolding changed invalidate_bucket
changed-IsFresh bucket rules r d v =
    let key = bucket_cache_key bucket in
    let row = encode_row (record r { name = bucket; cors = rules }) in
    record {
      valid = v;
      cold = lookup-erase key key d.cache ∙ rw ((eq_iff key key).1 refl) refl;
      stored = lookup-insert bucket bucket row d.buckets ∙ rw ((eq_iff bucket bucket).1 refl) refl;
    }

put_found-changed :
    (bucket : String) (rules : List CorsRule) (r b : BucketRecord) (d : Context)
    → lookup bucket d.buckets ≡ some (encode_row r)
    → IsStorable r
    → put_found bucket (ok rules) (ok b, d) ≡ (ok tt, changed bucket rules r d)
unfolding store_cors changed
put_found-changed bucket rules r b d at storable =
    rw (store_cors, at, decode_row-encode_row bucket r storable) refl

-- What the request that puts rules leaves.
handle_put_bucket_cors-IsFresh :
    (bucket : String) (extracted rules : List CorsRule) (r : BucketRecord) (c c' : Context)
    → lookup bucket c.buckets ≡ some (encode_row r)
    → IsStorable r
    → validate_cors_rules extracted ≡ ok rules
    → handle_put_bucket_cors bucket extracted c ≡ (ok tt, c')
    → IsFresh bucket (encode_row (record r { name = bucket; cors = rules })) c'
unfolding handle_put_bucket_cors
handle_put_bucket_cors-IsFresh bucket extracted rules r c c' stored storable v h =
    go (require_bucket bucket c).0 (require_bucket bucket c).1 refl
      (subst (λ x. put_found bucket x (require_bucket bucket c) ≡ (ok tt, c')) v h)
  where
    go :
        (x : Result Thrown BucketRecord) (d : Context)
        → require_bucket bucket c ≡ (x, d)
        → put_found bucket (ok rules) (x, d) ≡ (ok tt, c')
        → IsFresh bucket (encode_row (record r { name = bucket; cors = rules })) c'
    go (err e) d q h = absurd (grind arith)
    go (ok b) d q h =
        let kept = require_bucket-buckets bucket c in
        let at : lookup bucket d.buckets ≡ some (encode_row r) = grind (arith, kept, stored, q) in
        let done = put_found-changed bucket rules r b d at storable in
        let same : changed bucket rules r d ≡ c' = grind (arith, done, h) in
        subst (IsFresh bucket (encode_row (record r { name = bucket; cors = rules }))) same
          (changed-IsFresh bucket rules r d (found_valid bucket c d b q))

-- A bucket has the row of a record that the wire form can hold, and the rules are put that the
-- validation makes of a document, which the wire form can hold too. Where that request succeeds, the
-- next one finds the record with these rules in place of its own, whatever the cache held.
pub require_bucket-handle_put_bucket_cors :
    (bucket : String) (extracted rules : List CorsRule) (r : BucketRecord) (c c' : Context)
    → lookup bucket c.buckets ≡ some (encode_row r)
    → IsStorable r
    → validate_cors_rules extracted ≡ ok rules
    → IsRules rules
    → handle_put_bucket_cors bucket extracted c ≡ (ok tt, c')
    → (require_bucket bucket c').0 ≡ ok (record r { name = bucket; cors = rules })
unfolding load_bucket
require_bucket-handle_put_bucket_cors bucket extracted rules r c c' stored storable v fit h =
    let b : BucketRecord = record r { name = bucket; cors = rules } in
    let fits : IsStorable b = record {
      created_at = storable.created_at;
      policy = storable.policy;
      cors = fit;
      quota = storable.quota;
    } in
    let fresh = handle_put_bucket_cors-IsFresh bucket extracted rules r c c' stored storable v h in
    require_bucket-IsFresh bucket (encode_row b) c' fresh
    ∙ rw (load_bucket, decode_row-encode_row bucket b fits) refl

-- A bucket with a storable record that is not in the cache takes any rules that pass the validation.
pub handle_put_bucket_cors-succeeds :
    (bucket : String) (extracted rules : List CorsRule) (r : BucketRecord) (c : Context)
    → IsFresh bucket (encode_row r) c
    → IsStorable r
    → validate_cors_rules extracted ≡ ok rules
    → handle_put_bucket_cors bucket extracted c
      ≡ (ok tt, (handle_put_bucket_cors bucket extracted c).1)
unfolding handle_put_bucket_cors load_bucket
handle_put_bucket_cors-succeeds bucket extracted rules r c f storable v =
    go (require_bucket bucket c).0 (require_bucket bucket c).1 refl
  where
    found : (require_bucket bucket c).0 ≡ ok (record r { name = bucket })
    found =
        require_bucket-IsFresh bucket (encode_row r) c f
        ∙ rw (load_bucket, decode_row-encode_row bucket r storable) refl

    go :
        (x : Result Thrown BucketRecord) (d : Context)
        → require_bucket bucket c ≡ (x, d)
        → handle_put_bucket_cors bucket extracted c
          ≡ (ok tt, (handle_put_bucket_cors bucket extracted c).1)
    go (err e) d q = absurd (grind (arith, found, q))
    go (ok b) d q =
        let kept = require_bucket-buckets bucket c in
        let at : lookup bucket d.buckets ≡ some (encode_row r) = grind (arith, kept, f.stored, q) in
        let done = put_found-changed bucket rules r b d at storable in rw (v, q, done) refl

-- A bucket with a valid name has the row of a record that the wire form can hold, and is not in the
-- cache, and a document is put whose rules pass the validation, the first with more than 1000
-- origins, as many as fit 64 bits, and an id of less than 2 ^ 64 bytes. That request succeeds, and the
-- next one cannot read the row.
pub handle_put_bucket_cors-unreadable :
    (bucket : String) (extracted : List CorsRule) (first : CorsRule) (more : List CorsRule)
    (r : BucketRecord) (c : Context)
    → is_valid_bucket_name (codes bucket) ≡ true
    → lookup (bucket_cache_key bucket) c.cache ≡ none
    → lookup bucket c.buckets ≡ some (encode_row r)
    → IsStorable r
    → validate_cors_rules extracted ≡ ok (first ∷ more)
    → IsText first.id
    → 1000 < length first.allowed_origins
    → length first.allowed_origins < word64
    → ((handle_put_bucket_cors bucket extracted c).0 ≡ ok tt)
      × ((require_bucket bucket (handle_put_bucket_cors bucket extracted c).1).0
          ≡ err (row_error (unreadable_row list_too_long)))
unfolding load_bucket
handle_put_bucket_cors-unreadable bucket extracted first more r c valid cold stored storable v id
      long small =
    let b : BucketRecord = record r { name = bucket; cors = first ∷ more } in
    let c' = (handle_put_bucket_cors bucket extracted c).1 in
    let now : IsFresh bucket (encode_row r) c = record {
      valid = valid;
      cold = cold;
      stored = stored;
    } in
    let done = handle_put_bucket_cors-succeeds bucket extracted (first ∷ more) r c now storable v in
    let fresh =
      handle_put_bucket_cors-IsFresh bucket extracted (first ∷ more) r c c' stored storable v
        done in
    let fails =
      decode_cors_rules-unreadable extracted first more (fields_after b) v id long small in
    (
      ap (λ x. x.0) done,
      require_bucket-IsFresh bucket (encode_row b) c' fresh
          ∙ rw
              (
                load_bucket,
                decode_row-unreadable bucket b list_too_long storable.created_at storable.policy
                    fails,
              )
              refl,
    )
