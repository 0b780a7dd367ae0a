-- ===== src/S3/Errors.antt =====
-- backend/src/s3/s3_error.hpp and s3_error.cpp: the S3 error codes, what each is on the wire, and the
-- code for each condition of the storage layer. The error document (an XML text) and the random
-- request ids are not modelled.
pub mod Laws
use mono_bucket.Base.{ℕ, String}
use mono_bucket.Storage.Errors
use mono_bucket.Storage.Errors.{StorageErrorCode}

pub data S3ErrorCode : Type 0 where
  access_denied access_forbidden bad_digest bucket_already_exists : S3ErrorCode
  bucket_already_owned_by_you bucket_not_empty entity_too_large entity_too_small : S3ErrorCode
  incomplete_body internal_error invalid_access_key_id invalid_argument : S3ErrorCode
  invalid_bucket_name invalid_digest invalid_part invalid_part_order : S3ErrorCode
  invalid_range invalid_request invalid_uri insufficient_capacity : S3ErrorCode
  key_too_long malformed_xml method_not_allowed missing_content_length : S3ErrorCode
  missing_security_header no_such_bucket no_such_bucket_policy no_such_cors_configuration :
      S3ErrorCode
  no_such_key no_such_upload not_implemented precondition_failed : S3ErrorCode
  quota_exceeded request_time_too_skewed signature_does_not_match slow_down : S3ErrorCode
  x_amz_content_sha256_mismatch : S3ErrorCode

pub record S3ErrorInfo : Type 0 where
  pub code : String
  pub status : ℕ
  pub message : String

abbrev info : String → ℕ → String → S3ErrorInfo
info c s m = record { code = c; status = s; message = m }

unfoldable pub describe : S3ErrorCode → S3ErrorInfo
describe access_denied = info "AccessDenied" 403 "Access Denied"
describe access_forbidden =
    info "AccessForbidden" 403 "CORSResponse: This CORS request is not allowed."
describe bad_digest =
    info "BadDigest" 400 "The Content-MD5 you specified did not match what we received."
describe bucket_already_exists =
    info "BucketAlreadyExists" 409 "The requested bucket name is not available."
describe bucket_already_owned_by_you =
    info "BucketAlreadyOwnedByYou" 409
      "Your previous request to create the named bucket succeeded and you already own it."
describe bucket_not_empty = info "BucketNotEmpty" 409 "The bucket you tried to delete is not empty."
describe entity_too_large =
    info "EntityTooLarge" 400 "Your proposed upload exceeds the maximum allowed size."
describe entity_too_small =
    info "EntityTooSmall" 400
      "Your proposed upload is smaller than the minimum allowed object size."
describe incomplete_body =
    info "IncompleteBody" 400
      "You did not provide the number of bytes specified by the Content-Length HTTP header."
describe internal_error = info "InternalError" 500 "We encountered an internal error."
describe invalid_access_key_id =
    info "InvalidAccessKeyId" 403
      "The AWS access key id you provided does not exist in our records."
describe invalid_argument = info "InvalidArgument" 400 "Invalid Argument"
describe invalid_bucket_name = info "InvalidBucketName" 400 "The specified bucket is not valid."
describe invalid_digest = info "InvalidDigest" 400 "The Content-MD5 you specified is not valid."
describe invalid_part =
    info "InvalidPart" 400
      "One or more of the specified parts could not be found, or the entity tag did not match the part's entity tag."
describe invalid_part_order =
    info "InvalidPartOrder" 400
      "The list of parts was not in ascending order. Parts must be ordered by part number."
describe invalid_range = info "InvalidRange" 416 "The requested range is not satisfiable."
describe invalid_request = info "InvalidRequest" 400 "Invalid Request"
describe invalid_uri = info "InvalidURI" 400 "Could not parse the specified URI."
describe insufficient_capacity =
    info "InsufficientCapacity" 507
      "The server has no remaining allocatable capacity for this bucket."
describe key_too_long = info "KeyTooLongError" 400 "Your key is too long."
describe malformed_xml =
    info "MalformedXML" 400
      "The XML you provided was not well-formed or did not validate against our published schema."
describe method_not_allowed =
    info "MethodNotAllowed" 405 "The specified method is not allowed against this resource."
describe missing_content_length =
    info "MissingContentLength" 411 "You must provide the Content-Length HTTP header."
describe missing_security_header =
    info "MissingSecurityHeader" 400 "Your request is missing a required header."
describe no_such_bucket = info "NoSuchBucket" 404 "The specified bucket does not exist."
describe no_such_bucket_policy = info "NoSuchBucketPolicy" 404 "The bucket policy does not exist."
describe no_such_cors_configuration =
    info "NoSuchCORSConfiguration" 404 "The CORS configuration does not exist."
describe no_such_key = info "NoSuchKey" 404 "The specified key does not exist."
describe no_such_upload =
    info "NoSuchUpload" 404
      "The specified multipart upload does not exist. The upload id may be invalid, or the upload may have been aborted or completed."
describe not_implemented =
    info "NotImplemented" 501
      "A header or query parameter you provided implies functionality that is not implemented."
describe precondition_failed =
    info "PreconditionFailed" 412 "At least one of the preconditions you specified did not hold."
describe quota_exceeded =
    info "QuotaExceeded" 403 "The write exceeds the storage allocation of the specified bucket."
describe request_time_too_skewed =
    info "RequestTimeTooSkewed" 403
      "The difference between the request time and the current time is too large."
describe signature_does_not_match =
    info "SignatureDoesNotMatch" 403
      "The request signature we calculated does not match the signature you provided."
describe slow_down = info "SlowDown" 503 "Please reduce your request rate."
describe x_amz_content_sha256_mismatch =
    info "XAmzContentSHA256Mismatch" 400
      "The provided x-amz-content-sha256 header does not match what was computed."

unfoldable pub from_storage : StorageErrorCode → S3ErrorCode
from_storage StorageErrorCode.no_such_bucket = no_such_bucket
from_storage StorageErrorCode.no_such_key = no_such_key
from_storage StorageErrorCode.no_such_upload = no_such_upload
from_storage StorageErrorCode.bucket_already_exists = bucket_already_exists
from_storage StorageErrorCode.bucket_not_empty = bucket_not_empty
from_storage StorageErrorCode.invalid_part = invalid_part
from_storage StorageErrorCode.quota_exceeded = quota_exceeded
from_storage StorageErrorCode.quota_below_usage = invalid_argument
from_storage StorageErrorCode.object_too_large = entity_too_large
from_storage StorageErrorCode.checksum_mismatch = bad_digest
from_storage StorageErrorCode.insufficient_capacity = insufficient_capacity
from_storage StorageErrorCode.corruption = internal_error
from_storage StorageErrorCode.io = internal_error
from_storage StorageErrorCode.internal = internal_error
