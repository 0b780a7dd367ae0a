-- ===== src/S3/Encoded/Tests.antt =====
-- backend/src/s3/base64.cpp, bucket_handlers.cpp and handlers.cpp: runs on texts in base64.
use mono_bucket.Base.{◌≡◌, ◌↔◌, none, [], ◌∷◌, Bytes, IsBytes, codes, refl, some, ok, err, arith}
use mono_bucket.S3.Base64.{base64_encode, base64_decode}
use mono_bucket.S3.Encoded.{check_content_md5, decode_continuation}
use mono_bucket.S3.Encoded.Laws.{check_content_md5_iff}
use mono_bucket.S3.Errors.{invalid_argument}
use mono_bucket.S3.Sigv4.{to_hex}

abbrev test_digest : Bytes
test_digest = 0 ∷ 1 ∷ 2 ∷ 3 ∷ 4 ∷ 5 ∷ 6 ∷ 7 ∷ 8 ∷ 9 ∷ 10 ∷ 11 ∷ 12 ∷ 13 ∷ 14 ∷ 255 ∷ []

test_digest-IsBytes : IsBytes test_digest
test_digest-IsBytes = grind arith

check_content_md5_iff_example :
    (check_content_md5 (base64_encode test_digest) (to_hex test_digest) ≡ ok tt)
    ↔ (test_digest ≡ test_digest)
check_content_md5_iff_example =
    check_content_md5_iff test_digest test_digest test_digest-IsBytes test_digest-IsBytes refl

test_base64_encode : base64_encode (codes "foob") ≡ codes "Zm9vYg=="
unfolding base64_encode
test_base64_encode = refl

test_base64_decode : base64_decode (codes "Zm9vYmE=") ≡ some (codes "fooba")
unfolding base64_decode
test_base64_decode = refl

test_base64_decode_inner_padding : base64_decode (codes "Zg==Zg==") ≡ none
unfolding base64_decode
test_base64_decode_inner_padding = refl

test_decode_continuation_empty : decode_continuation [] ≡ err invalid_argument
unfolding decode_continuation
test_decode_continuation_empty = refl
