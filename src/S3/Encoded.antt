-- ===== src/S3/Encoded.antt =====
-- backend/src/s3/bucket_handlers.cpp and handlers.cpp: what a client sends in base64, which are the
-- continuation token of a listing and the `Content-MD5` of a body.
pub mod Laws
pub mod Tests
use mono_bucket.Base.{
  Bool, true, false, ◌||◌, not, Option, none, some, ◌==◌, if◌then◌else◌, Bytes, length, Result, ok,
  err,
}
use mono_bucket.S3.Base64.{base64_encode, base64_decode}
use mono_bucket.S3.Errors.{S3ErrorCode, bad_digest, invalid_argument, invalid_digest}
use mono_bucket.S3.Sigv4.{secure_equals, to_hex}

unfoldable pub encode_continuation : Bytes → Bytes
unfolding base64_encode
encode_continuation start_after = base64_encode start_after

unfoldable pub decode_continuation : Bytes → Result S3ErrorCode Bytes
unfolding base64_decode
decode_continuation token = elim (base64_decode token) [
  | none ↦ err invalid_argument
  | some decoded ↦ ok decoded
]

-- The comparison of what the header held with the MD5 of the body in hexadecimal.
unfoldable pub compare_md5 : Bytes → Bytes → Result S3ErrorCode (Unit {0})
unfolding secure_equals to_hex
compare_md5 expected actual_hex =
    if not (length expected == 16)
    then err invalid_digest
    else if not (secure_equals actual_hex (to_hex expected))
    then err bad_digest
    else ok tt

unfoldable pub check_content_md5 : Bytes → Bytes → Result S3ErrorCode (Unit {0})
unfolding base64_decode compare_md5
check_content_md5 header actual_hex = elim (base64_decode header) [
  | none ↦ err invalid_digest
  | some expected ↦ compare_md5 expected actual_hex
]
