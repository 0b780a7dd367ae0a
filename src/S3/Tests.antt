-- ===== src/S3/Tests.antt =====
-- The S3 layer on small inputs.
use mono_bucket.Base.{
  bytes_eq, none, some, [], ◌∷◌, ok, err, ◌≡◌, ◌≢◌, ◌↔◌, ◌⊎◌, lookup, true, false, arith, refl,
  codes,
}
use mono_bucket.Core.Identity.{read_only, read_access, is_base}
use mono_bucket.Storage.Records.{BucketRecord}
use mono_bucket.S3.Uri.{uri_decode, uri_encode}
use mono_bucket.S3.Uri.RoundTrip.{uri_decode-uri_encode}
use mono_bucket.S3.Query.{S3Request}
use mono_bucket.S3.Errors.{access_denied}
use mono_bucket.S3.Names.{
  octets_from, looks_like_ipv4, bucket_bytes_from, last_byte, is_bucket_byte, is_valid_bucket_name,
  is_valid_object_key, plain_bytes, bytes_contain, bytes_start,
}
use mono_bucket.S3.Operation.{
  is_read_only, list_objects_v2, get_object, head_object, list_objects_v1, head_bucket, put_object,
  preflight,
}
use mono_bucket.S3.Buckets.{Context, require_bucket, bucket_cache_key}
use mono_bucket.Storage.Records.Rows.{encode_row}
use mono_bucket.Storage.Records.Rows.Laws.{IsStorable}
use mono_bucket.S3.Router.Signed.{SignedMay, authorize_signed_iff}
use mono_bucket.S3.Router.{SignedIdentity, authorize}
use mono_bucket.S3.Router.Laws.{authorize_anonymous_only, listing_forgotten}

abbrev photos : BucketRecord
photos = record {
  name = "photos";
  created_at = 1700000000;
  public_read = true;
  public_list = true;
  policy = codes "{}";
  cors = [];
  quota_bytes = 1000;
  durability = none;
}

photos-IsStorable : IsStorable photos
photos-IsStorable = record {
  created_at = omega arith;
  policy = omega arith;
  cors = (omega arith, tt);
  quota = omega arith;
}

abbrev cold : Context
cold = record {
  buckets = ("photos", encode_row photos) ∷ [];
  cache = [];
  audit = [];
  anonymous = 0;
}

abbrev get_list : S3Request
get_list = record {
  method = "GET";
  bucket = "photos";
  key = "";
  query = [];
  resource = "/photos";
  request_id = "1";
}

abbrev put_key : S3Request
put_key = record {
  method = "PUT";
  bucket = "photos";
  key = "a";
  query = [];
  resource = "/photos/a";
  request_id = "2";
}

abbrev reader : SignedIdentity
reader = record {
  role = read_only;
  username = "ann";
  grants = record { fallback = read_access; exceptions = [] };
}

valid_name : is_valid_bucket_name (codes "photos") ≡ true
unfolding is_valid_bucket_name looks_like_ipv4 octets_from bucket_bytes_from last_byte
    is_bucket_byte is_base
valid_name = refl

present : lookup "photos" cold.buckets ≡ some (encode_row photos)
unfolding lookup
present = refl

uncached : lookup (bucket_cache_key "photos") cold.cache ≡ none
unfolding lookup
uncached = refl

served_anonymously : (authorize true none get_list list_objects_v2 cold).0 ≡ ok tt
served_anonymously =
    (listing_forgotten get_list photos cold valid_name photos-IsStorable refl present uncached).0

authorize_anonymous_only_example :
    (get_list.bucket ≢ "")
    × ((b : BucketRecord) × ((require_bucket "photos" cold).0 ≡ ok b)
        × ((((list_objects_v2 ≡ get_object) ⊎ (list_objects_v2 ≡ head_object))
              × (b.public_read ≡ true))
            ⊎ (((list_objects_v2 ≡ list_objects_v1)
                  ⊎ (list_objects_v2 ≡ list_objects_v2)
                  ⊎ (list_objects_v2 ≡ head_bucket))
                × (b.public_list ≡ true))))
authorize_anonymous_only_example =
    authorize_anonymous_only none get_list list_objects_v2 cold served_anonymously

put_object-ne-preflight : put_object ≢ preflight
put_object-ne-preflight e = cc

authorize_signed_iff_example :
    ((authorize false (some reader) put_key put_object cold).0 ≡ ok tt) ↔ (
      (i : SignedIdentity) × (some reader ≡ some i)
      × SignedMay i "photos" (is_read_only put_object))
authorize_signed_iff_example =
    authorize_signed_iff (some reader) put_key put_object cold put_object-ne-preflight

listing_forgotten_example :
    ((authorize true none get_list list_objects_v2 cold).0 ≡ ok tt)
    × ((authorize true none get_list list_objects_v2
          (authorize true none get_list list_objects_v2 cold).1).0
        ≡ err access_denied)
listing_forgotten_example =
    listing_forgotten get_list photos cold valid_name photos-IsStorable refl present uncached

valid_key : is_valid_object_key (codes "a/b") ≡ true
unfolding is_valid_object_key plain_bytes bytes_contain bytes_start bytes_eq
valid_key = refl

uri_decode-uri_encode_example : uri_decode (uri_encode (codes "a /") true) ≡ codes "a /"
uri_decode-uri_encode_example =
    uri_decode-uri_encode (codes "a /") true (omega arith, (omega arith, (omega arith, tt)))
