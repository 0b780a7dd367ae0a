-- ===== src/S3/Operation/Laws.antt =====
-- The classification of requests, and which operations only read (operation.cpp).
use mono_bucket.Base.{String, ◌≡◌, ◌≢◌, ◌↔◌, ◌⊎◌, true, false, arith, eq_iff}
use mono_bucket.Core.Identity.{role_allows, read_only}
use mono_bucket.S3.Query.{S3Request, has_query}
use mono_bucket.S3.Operation.{
  Operation, classify, classify_bucket, classify_object, classify_service, first_subresource,
  is_read_only, permission_for, list_buckets, create_bucket, delete_bucket, head_bucket,
  list_objects_v1, list_objects_v2, list_multipart_uploads, delete_objects, get_bucket_location,
  get_bucket_versioning, get_bucket_policy, put_bucket_policy, delete_bucket_policy, get_bucket_acl,
  put_bucket_acl, get_bucket_cors, put_bucket_cors, delete_bucket_cors, preflight, get_object,
  head_object, put_object, delete_object, create_multipart_upload, upload_part, list_parts,
  complete_multipart_upload, abort_multipart_upload, unsupported, method_not_allowed,
}

-- Apart from a preflight, which is answered before anybody is authenticated, an operation is
-- read-only exactly when the permission it needs is one that the role `readonly` holds.
pub is_read_only_iff :
    (op : Operation)
    → op ≢ preflight
    → (is_read_only op ≡ true) ↔ (role_allows read_only (permission_for op) ≡ true)
unfolding is_read_only permission_for role_allows
is_read_only_iff list_buckets h = ground arith
is_read_only_iff create_bucket h = ground arith
is_read_only_iff delete_bucket h = ground arith
is_read_only_iff head_bucket h = ground arith
is_read_only_iff list_objects_v1 h = ground arith
is_read_only_iff list_objects_v2 h = ground arith
is_read_only_iff list_multipart_uploads h = ground arith
is_read_only_iff delete_objects h = ground arith
is_read_only_iff get_bucket_location h = ground arith
is_read_only_iff get_bucket_versioning h = ground arith
is_read_only_iff get_bucket_policy h = ground arith
is_read_only_iff put_bucket_policy h = ground arith
is_read_only_iff delete_bucket_policy h = ground arith
is_read_only_iff get_bucket_acl h = ground arith
is_read_only_iff put_bucket_acl h = ground arith
is_read_only_iff get_bucket_cors h = ground arith
is_read_only_iff put_bucket_cors h = ground arith
is_read_only_iff delete_bucket_cors h = ground arith
is_read_only_iff preflight h = ground arith
is_read_only_iff get_object h = ground arith
is_read_only_iff head_object h = ground arith
is_read_only_iff put_object h = ground arith
is_read_only_iff delete_object h = ground arith
is_read_only_iff create_multipart_upload h = ground arith
is_read_only_iff upload_part h = ground arith
is_read_only_iff list_parts h = ground arith
is_read_only_iff complete_multipart_upload h = ground arith
is_read_only_iff abort_multipart_upload h = ground arith
is_read_only_iff unsupported h = ground arith
is_read_only_iff method_not_allowed h = ground arith

classify_service-ne-put_object : (r : S3Request) → classify_service r ≢ put_object
unfolding classify_service
classify_service-ne-put_object r = ground arith

classify_bucket-ne-put_object : (r : S3Request) → classify_bucket r ≢ put_object
unfolding classify_bucket
classify_bucket-ne-put_object r = ground arith

classify_object-put_object_iff :
    (r : S3Request)
    → (classify_object r ≡ put_object) ↔ (
        (r.method ≡ "PUT")
        × (has_query r.query "uploadId" ≡ false)
        × (has_query r.query "partNumber" ≡ false))
unfolding classify_object
classify_object-put_object_iff r = ground (
  arith,
  eq_iff r.method "GET",
  eq_iff r.method "HEAD",
  eq_iff r.method "PUT",
  eq_iff r.method "DELETE",
  eq_iff r.method "POST",
  eq_iff "GET" "HEAD",
  eq_iff "GET" "PUT",
  eq_iff "GET" "DELETE",
  eq_iff "GET" "POST",
  eq_iff "HEAD" "PUT",
  eq_iff "HEAD" "DELETE",
  eq_iff "HEAD" "POST",
  eq_iff "PUT" "DELETE",
  eq_iff "PUT" "POST",
  eq_iff "DELETE" "POST",
)

-- A request is stored as an object exactly when it is a PUT on a key of a bucket, names no
-- unimplemented subresource, and carries neither an upload id nor a part number.
pub classify-put_object_iff :
    (r : S3Request) (text : String)
    → ((classify r text).0 ≡ put_object) ↔ (
        (r.method ≡ "PUT")
        × (first_subresource r ≡ "")
        × (r.bucket ≢ "")
        × (r.key ≢ "")
        × (has_query r.query "uploadId" ≡ false)
        × (has_query r.query "partNumber" ≡ false))
unfolding classify
classify-put_object_iff r text = ground (
  arith,
  classify_service-ne-put_object r,
  classify_bucket-ne-put_object r,
  classify_object-put_object_iff r,
  eq_iff r.method "OPTIONS",
  eq_iff "PUT" "OPTIONS",
  eq_iff r.bucket "",
  eq_iff r.key "",
  eq_iff (first_subresource r) "",
)

classify_bucket_get : (r : S3Request) → r.method ≡ "GET" → is_read_only (classify_bucket r) ≡ true
unfolding classify_bucket is_read_only
classify_bucket_get r get = ground (arith, eq_iff r.method "GET")

classify_object_get : (r : S3Request) → r.method ≡ "GET" → is_read_only (classify_object r) ≡ true
unfolding classify_object is_read_only
classify_object_get r get = ground (arith, eq_iff r.method "GET")

classify_service_get : (r : S3Request) → r.method ≡ "GET" → is_read_only (classify_service r) ≡ true
unfolding classify_service is_read_only
classify_service_get r get = ground (arith, eq_iff r.method "GET")

-- Whatever its path and query, a GET is never an operation that changes anything: it is read-only,
-- or refused as unsupported.
pub classify-get :
    (r : S3Request) (text : String)
    → r.method ≡ "GET"
    → (is_read_only (classify r text).0 ≡ true) ⊎ ((classify r text).0 ≡ unsupported)
unfolding classify
classify-get r text get = ground (
  arith,
  eq_iff r.method "OPTIONS",
  eq_iff "GET" "OPTIONS",
  classify_bucket_get r get,
  classify_object_get r get,
  classify_service_get r get,
)
