-- ===== src/S3/Errors/Laws.antt =====
-- The wire codes and statuses of the errors (s3_error.cpp).
use mono_bucket.Base.{
  ◌≤◌, String, ◌≡◌, ◌↔◌, ◌⊎◌, refl, sym, ap, ◌∙◌, Option, none, some, List, [], ◌∷◌, arith,
  if◌then◌else◌, str_eq,
}
use mono_bucket.Storage.Errors.{StorageErrorCode}
use mono_bucket.S3.Errors.{
  S3ErrorCode, describe, from_storage, access_denied, access_forbidden, bad_digest,
  bucket_already_exists, bucket_already_owned_by_you, bucket_not_empty, entity_too_large,
  entity_too_small, incomplete_body, internal_error, invalid_access_key_id, invalid_argument,
  invalid_bucket_name, invalid_digest, invalid_part, invalid_part_order, invalid_range,
  invalid_request, invalid_uri, insufficient_capacity, key_too_long, malformed_xml,
  method_not_allowed, missing_content_length, missing_security_header, no_such_bucket,
  no_such_bucket_policy, no_such_cors_configuration, no_such_key, no_such_upload, not_implemented,
  precondition_failed, quota_exceeded, request_time_too_skewed, signature_does_not_match, slow_down,
  x_amz_content_sha256_mismatch,
}

all_codes : List S3ErrorCode
all_codes =
    access_denied ∷ access_forbidden ∷ bad_digest ∷ bucket_already_exists
    ∷ bucket_already_owned_by_you ∷ bucket_not_empty ∷ entity_too_large ∷ entity_too_small
    ∷ incomplete_body ∷ internal_error ∷ invalid_access_key_id ∷ invalid_argument
    ∷ invalid_bucket_name ∷ invalid_digest ∷ invalid_part ∷ invalid_part_order ∷ invalid_range
    ∷ invalid_request ∷ invalid_uri ∷ insufficient_capacity ∷ key_too_long ∷ malformed_xml
    ∷ method_not_allowed ∷ missing_content_length ∷ missing_security_header ∷ no_such_bucket
    ∷ no_such_bucket_policy ∷ no_such_cors_configuration ∷ no_such_key ∷ no_such_upload
    ∷ not_implemented ∷ precondition_failed ∷ quota_exceeded ∷ request_time_too_skewed
    ∷ signature_does_not_match ∷ slow_down ∷ x_amz_content_sha256_mismatch ∷ []

find_code : String → List S3ErrorCode → Option S3ErrorCode
find_code text [] = none
find_code text (c ∷ cs) = if str_eq (describe c).code text then some c else find_code text cs

find_code-describe : (c : S3ErrorCode) → find_code (describe c).code all_codes ≡ some c
unfolding find_code describe all_codes
find_code-describe access_denied = refl
find_code-describe access_forbidden = refl
find_code-describe bad_digest = refl
find_code-describe bucket_already_exists = refl
find_code-describe bucket_already_owned_by_you = refl
find_code-describe bucket_not_empty = refl
find_code-describe entity_too_large = refl
find_code-describe entity_too_small = refl
find_code-describe incomplete_body = refl
find_code-describe internal_error = refl
find_code-describe invalid_access_key_id = refl
find_code-describe invalid_argument = refl
find_code-describe invalid_bucket_name = refl
find_code-describe invalid_digest = refl
find_code-describe invalid_part = refl
find_code-describe invalid_part_order = refl
find_code-describe invalid_range = refl
find_code-describe invalid_request = refl
find_code-describe invalid_uri = refl
find_code-describe insufficient_capacity = refl
find_code-describe key_too_long = refl
find_code-describe malformed_xml = refl
find_code-describe method_not_allowed = refl
find_code-describe missing_content_length = refl
find_code-describe missing_security_header = refl
find_code-describe no_such_bucket = refl
find_code-describe no_such_bucket_policy = refl
find_code-describe no_such_cors_configuration = refl
find_code-describe no_such_key = refl
find_code-describe no_such_upload = refl
find_code-describe not_implemented = refl
find_code-describe precondition_failed = refl
find_code-describe quota_exceeded = refl
find_code-describe request_time_too_skewed = refl
find_code-describe signature_does_not_match = refl
find_code-describe slow_down = refl
find_code-describe x_amz_content_sha256_mismatch = refl

some_inj : (a b : S3ErrorCode) → ◌≡◌ {A = Option S3ErrorCode} (some a) (some b) → a ≡ b
some_inj a b h = cc

-- Two errors with one `<Code>` text are one error: a client that matches on the text tells every
-- error from every other.
pub describe-code-inj : (a b : S3ErrorCode) → (describe a).code ≡ (describe b).code → a ≡ b
describe-code-inj a b h =
    some_inj a b
      (sym (find_code-describe a) ∙ ap (λ t. find_code t all_codes) h ∙ find_code-describe b)

-- A condition of the storage layer is reported as a failure of the server (a status of 500 or more)
-- exactly when the store is broken or the instance has no capacity left to hand out.
pub from_storage-server_error_iff :
    (c : StorageErrorCode)
    → (500 ≤ (describe (from_storage c)).status) ↔ (
        (c ≡ StorageErrorCode.insufficient_capacity)
        ⊎ (c ≡ StorageErrorCode.corruption)
        ⊎ (c ≡ StorageErrorCode.io)
        ⊎ (c ≡ StorageErrorCode.internal))
unfolding describe from_storage
from_storage-server_error_iff StorageErrorCode.no_such_bucket = ground arith
from_storage-server_error_iff StorageErrorCode.no_such_key = ground arith
from_storage-server_error_iff StorageErrorCode.no_such_upload = ground arith
from_storage-server_error_iff StorageErrorCode.bucket_already_exists = ground arith
from_storage-server_error_iff StorageErrorCode.bucket_not_empty = ground arith
from_storage-server_error_iff StorageErrorCode.invalid_part = ground arith
from_storage-server_error_iff StorageErrorCode.quota_exceeded = ground arith
from_storage-server_error_iff StorageErrorCode.quota_below_usage = ground arith
from_storage-server_error_iff StorageErrorCode.insufficient_capacity = ground arith
from_storage-server_error_iff StorageErrorCode.object_too_large = ground arith
from_storage-server_error_iff StorageErrorCode.checksum_mismatch = ground arith
from_storage-server_error_iff StorageErrorCode.corruption = ground arith
from_storage-server_error_iff StorageErrorCode.io = ground arith
from_storage-server_error_iff StorageErrorCode.internal = ground arith
