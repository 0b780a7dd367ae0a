-- ===== src/S3/Buckets/Warm.antt =====
-- What a warm cache answers (handlers.cpp: requireBucket).
use mono_bucket.Base.{
  ◌≡◌, sym, ◌∙◌, ap, String, true, false, none, some, [], arith, eq_iff, lookup, lookup-insert,
  lookup-erase, codes, ok,
}
use mathlib.Core.List.{append-nil}
use mono_bucket.Storage.Codec.RoundTrip.{
  Reads, Reads-bind, Reads-bind_pure, Reads-varint, Reads-boolean, Reads-string,
}
use mono_bucket.Storage.Records.{BucketRecord}
use mono_bucket.Storage.Records.Rows.{encode_row}
use mono_bucket.Storage.Records.Rows.Laws.{IsStorable, decode_row-encode_row}
use mono_bucket.Storage.Records.RoundTrip.{decode-encode_cors_rules}
use mono_bucket.S3.Names.{is_valid_bucket_name}
use mono_bucket.S3.Buckets.{
  Context, bucket_cache_key, encode_bucket, decode_bucket, load_bucket, require_bucket,
  invalidate_bucket,
}

-- What is left of a record in the cache.
abbrev pub cached_view : String → BucketRecord → BucketRecord
cached_view name r = record r {
  name = name;
  public_list = false;
  quota_bytes = 0;
  durability = none;
}

named : (name : String) (r : BucketRecord) → IsStorable r → IsStorable (record r { name = name })
named name r h = record {
  created_at = h.created_at;
  policy = h.policy;
  cors = h.cors;
  quota = h.quota;
}

Reads-bucket :
    (name : String) (r : BucketRecord)
    → IsStorable r
    → Reads (decode_bucket name) (encode_bucket r) (cached_view name r)
unfolding decode_bucket encode_bucket
Reads-bucket name r h = Reads-bind _ (Reads-varint r.created_at h.created_at) (
    Reads-bind _ (Reads-boolean r.public_read) (
      Reads-bind _ (Reads-string r.policy h.policy)
        (Reads-bind_pure _ (decode-encode_cors_rules r.cors h.cors))))

decode-encode_bucket :
    (name : String) (r : BucketRecord)
    → IsStorable r
    → decode_bucket name (encode_bucket r) ≡ ok (cached_view name r, [])
decode-encode_bucket name r h =
    ap (decode_bucket name) (sym (append-nil (encode_bucket r))) ∙ (Reads-bucket name r h).at []

-- A bucket with a valid name and a storable record, in the store and not in the cache, is asked for
-- twice: the first answer is the record, and the second has no anonymous listing, no allocation and no
-- durability of its own.
pub require_bucket_twice :
    (name : String) (r : BucketRecord) (c : Context)
    → is_valid_bucket_name (codes name) ≡ true
    → IsStorable r
    → lookup name c.buckets ≡ some (encode_row r)
    → lookup (bucket_cache_key name) c.cache ≡ none
    → ((require_bucket name c).0 ≡ ok (record r { name = name }))
      × ((require_bucket name (require_bucket name c).1).0 ≡ ok (cached_view name r))
unfolding require_bucket load_bucket
require_bucket_twice name r c valid storable stored cold =
    let row = decode_row-encode_row name r storable in
    ground (
      arith,
      row,
      lookup-insert (bucket_cache_key name) (bucket_cache_key name)
          (encode_bucket (record r { name = name })) c.cache,
      eq_iff (bucket_cache_key name) (bucket_cache_key name),
      decode-encode_bucket name (record r { name = name }) (named name r storable),
    )

-- After an invalidation, a bucket with a valid name and a storable record is answered with the record
-- of the store, whatever the cache held.
pub require_bucket-invalidate :
    (name : String) (r : BucketRecord) (c : Context)
    → is_valid_bucket_name (codes name) ≡ true
    → IsStorable r
    → lookup name c.buckets ≡ some (encode_row r)
    → (require_bucket name (invalidate_bucket name c)).0 ≡ ok (record r { name = name })
unfolding require_bucket invalidate_bucket load_bucket
require_bucket-invalidate name r c valid storable stored = ground (
  arith,
  decode_row-encode_row name r storable,
  lookup-erase (bucket_cache_key name) (bucket_cache_key name) c.cache,
  eq_iff (bucket_cache_key name) (bucket_cache_key name),
)
