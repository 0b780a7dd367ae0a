-- ===== src/S3/Operation.antt =====
-- backend/src/s3/operation.hpp and operation.cpp: which operation a request is, whether it only
-- reads, and the permission it needs.
pub mod Laws
use mono_bucket.Base.{
  String, Bool, true, false, ◌&&◌, ◌||◌, Option, none, some, List, [], ◌∷◌, if◌then◌else◌, str_eq,
}
use mono_bucket.S3.Query.{S3Request, has_query, find_query}
use mono_bucket.Core.Identity.{Permission, bucket_read, bucket_write, object_read, object_write}

pub data Operation : Type 0 where
  list_buckets create_bucket delete_bucket head_bucket list_objects_v1 list_objects_v2 : Operation
  list_multipart_uploads delete_objects get_bucket_location get_bucket_versioning : Operation
  get_bucket_policy put_bucket_policy delete_bucket_policy get_bucket_acl put_bucket_acl : Operation
  get_bucket_cors put_bucket_cors delete_bucket_cors preflight : Operation
  get_object head_object put_object delete_object : Operation
  create_multipart_upload upload_part list_parts : Operation
  complete_multipart_upload abort_multipart_upload unsupported method_not_allowed : Operation

unfoldable pub unimplemented_subresources : List String
unimplemented_subresources =
    "accelerate" ∷ "analytics" ∷ "encryption" ∷ "inventory" ∷ "lifecycle" ∷ "logging" ∷ "metrics"
    ∷ "notification" ∷ "object-lock" ∷ "ownership" ∷ "publicAccessBlock" ∷ "replication"
    ∷ "requestPayment" ∷ "tagging" ∷ "versions" ∷ "website" ∷ "restore" ∷ []

unfoldable pub first_of_names : List String → S3Request → String
first_of_names [] r = ""
first_of_names (name ∷ names) r = if has_query r.query name then name else first_of_names names r

unfoldable pub first_subresource : S3Request → String
unfolding first_of_names unimplemented_subresources
first_subresource r = first_of_names unimplemented_subresources r

unfoldable pub classify_service : S3Request → Operation
classify_service r = if str_eq r.method "GET" then list_buckets else method_not_allowed

abbrev list_version : Option String → Operation
list_version none = list_objects_v1
list_version (some v) = if str_eq v "2" then list_objects_v2 else list_objects_v1

unfoldable pub classify_bucket : S3Request → Operation
classify_bucket r =
    let has_upload_id = has_query r.query "uploadId" in
    if str_eq r.method "GET"
    then (if has_query r.query "uploads"
        then list_multipart_uploads
        else if has_query r.query "location"
        then get_bucket_location
        else if has_query r.query "versioning"
        then get_bucket_versioning
        else if has_query r.query "policy"
        then get_bucket_policy
        else if has_query r.query "acl"
        then get_bucket_acl
        else if has_query r.query "cors"
        then get_bucket_cors
        else list_version (find_query r.query "list-type"))
    else if str_eq r.method "HEAD"
    then head_bucket
    else if str_eq r.method "PUT"
    then (if has_query r.query "policy"
        then put_bucket_policy
        else if has_query r.query "acl"
        then put_bucket_acl
        else if has_query r.query "cors"
        then put_bucket_cors
        else create_bucket)
    else if str_eq r.method "DELETE"
    then (if has_query r.query "policy"
        then delete_bucket_policy
        else if has_query r.query "cors"
        then delete_bucket_cors
        else delete_bucket)
    else if str_eq r.method "POST"
    then (if has_query r.query "delete"
        then delete_objects
        else if has_upload_id
        then unsupported
        else method_not_allowed)
    else method_not_allowed

unfoldable pub classify_object : S3Request → Operation
classify_object r =
    let has_upload_id = has_query r.query "uploadId" in
    let has_part_number = has_query r.query "partNumber" in
    if str_eq r.method "GET"
    then (if has_upload_id
        then list_parts
        else if has_query r.query "acl"
        then get_bucket_acl
        else get_object)
    else if str_eq r.method "HEAD"
    then head_object
    else if str_eq r.method "PUT"
    then (if has_upload_id && has_part_number
        then upload_part
        else if has_upload_id || has_part_number
        then unsupported
        else put_object)
    else if str_eq r.method "POST"
    then (if has_query r.query "uploads"
        then create_multipart_upload
        else if has_upload_id
        then complete_multipart_upload
        else method_not_allowed)
    else if str_eq r.method "DELETE"
    then (if has_upload_id then abort_multipart_upload else delete_object)
    else method_not_allowed

unfoldable pub is_read_only : Operation → Bool
is_read_only list_buckets = true
is_read_only head_bucket = true
is_read_only list_objects_v1 = true
is_read_only list_objects_v2 = true
is_read_only list_multipart_uploads = true
is_read_only get_bucket_location = true
is_read_only get_bucket_versioning = true
is_read_only get_bucket_policy = true
is_read_only get_bucket_acl = true
is_read_only get_bucket_cors = true
is_read_only get_object = true
is_read_only head_object = true
is_read_only list_parts = true
is_read_only _ = false

unfoldable pub permission_for : Operation → Permission
permission_for list_buckets = bucket_read
permission_for head_bucket = bucket_read
permission_for list_objects_v1 = bucket_read
permission_for list_objects_v2 = bucket_read
permission_for list_multipart_uploads = bucket_read
permission_for get_bucket_location = bucket_read
permission_for get_bucket_versioning = bucket_read
permission_for get_bucket_policy = bucket_read
permission_for get_bucket_acl = bucket_read
permission_for get_bucket_cors = bucket_read
permission_for create_bucket = bucket_write
permission_for delete_bucket = bucket_write
permission_for put_bucket_policy = bucket_write
permission_for delete_bucket_policy = bucket_write
permission_for put_bucket_acl = bucket_write
permission_for put_bucket_cors = bucket_write
permission_for delete_bucket_cors = bucket_write
permission_for get_object = object_read
permission_for head_object = object_read
permission_for list_parts = object_read
permission_for put_object = object_write
permission_for delete_object = object_write
permission_for delete_objects = object_write
permission_for create_multipart_upload = object_write
permission_for upload_part = object_write
permission_for complete_multipart_upload = object_write
permission_for abort_multipart_upload = object_write
permission_for preflight = object_read
permission_for unsupported = object_write
permission_for method_not_allowed = object_write

-- `unsupported` is an out parameter: the caller's text, kept where the code does not assign it.
unfoldable pub classify : S3Request → String → Operation × String
classify r unsupported_text =
    if str_eq r.method "OPTIONS"
    then (preflight, unsupported_text)
    else let name = first_subresource r in
      if str_eq name ""
      then (if str_eq r.bucket ""
          then (classify_service r, name)
          else if str_eq r.key ""
          then (classify_bucket r, name)
          else (classify_object r, name))
      else (unsupported, name)
