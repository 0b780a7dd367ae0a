-- ===== src/S3/Sigv4.antt =====
-- backend/src/s3/sigv4.cpp and storage/digest.cpp: the primitives of a signature. HMAC-SHA256 is
-- OpenSSL's, and a parameter.
pub mod Authorization
pub mod Compare
pub mod Tests
use mono_bucket.Base.{
  ℕ, ◌+◌, ◌-◌, ◌/◌, ◌%◌, Bool, true, false, List, [], ◌∷◌, ◌++◌, ltb, ◌==◌, if◌then◌else◌, not,
  length, Bytes, codes,
}
use Prim.Native.Nat.{bit_or, bit_xor}

-- The loop of `secureEquals`, with the bits that differ so far.
unfoldable pub difference_from : ℕ → Bytes → Bytes → ℕ
difference_from difference (x ∷ xs) (y ∷ ys) =
    difference_from (bit_or difference (bit_xor x y)) xs ys
difference_from difference _ _ = difference

unfoldable pub secure_equals : Bytes → Bytes → Bool
unfolding difference_from
secure_equals a b = if not (length a == length b) then false else difference_from 0 a b == 0

-- kHexDigits of digest.cpp
unfoldable pub lower_hex : ℕ → ℕ
lower_hex n = if ltb n 10 then b'0' + n else b'a' + (n - 10)

unfoldable pub to_hex : Bytes → Bytes
unfolding lower_hex
to_hex [] = []
to_hex (c ∷ text) = lower_hex (c / 16) ∷ lower_hex (c % 16) ∷ to_hex text

abbrev pub empty_sha256 : Bytes
empty_sha256 = codes "e3b0c44298fc1c149afbf4c8996fb92427ae41e4649b934ca495991b7852b855"

abbrev pub newline : Bytes
newline = 10 ∷ []

unfoldable pub string_to_sign : Bytes → Bytes → Bytes → Bytes
string_to_sign amz_date scope canonical_request_hash =
    codes "AWS4-HMAC-SHA256"
    ++ (newline ++ (amz_date ++ (newline ++ (scope ++ (newline ++ canonical_request_hash)))))

module _ (hmac_sha256 : Bytes → Bytes → Bytes) where
  unfoldable pub sign : Bytes → Bytes → Bytes
  unfolding to_hex
  sign signing_key to_sign = to_hex (hmac_sha256 signing_key to_sign)

  unfoldable pub derive_signing_key : Bytes → Bytes → Bytes → Bytes → Bytes
  derive_signing_key secret date_stamp region service =
      let date = hmac_sha256 (codes "AWS4" ++ secret) date_stamp in
      let serviced = hmac_sha256 (hmac_sha256 date region) service in
      hmac_sha256 serviced (codes "aws4_request")

  unfoldable pub chunk_signature : Bytes → Bytes → Bytes → Bytes → Bytes → Bytes
  unfolding sign
  chunk_signature signing_key amz_date scope previous_signature chunk_sha256_hex =
      sign signing_key (
        codes "AWS4-HMAC-SHA256-PAYLOAD"
        ++ (newline
            ++ (amz_date
                ++ (newline
                    ++ (scope
                        ++ (newline
                            ++ (previous_signature
                                ++ (newline
                                    ++ (empty_sha256 ++ (newline ++ chunk_sha256_hex))))))))))

  unfoldable pub trailer_signature : Bytes → Bytes → Bytes → Bytes → Bytes → Bytes
  unfolding sign
  trailer_signature signing_key amz_date scope previous_signature trailer_sha256_hex =
      sign signing_key (
        codes "AWS4-HMAC-SHA256-TRAILER"
        ++ (newline
            ++ (amz_date
                ++ (newline
                    ++ (scope
                        ++ (newline ++ (previous_signature ++ (newline ++ trailer_sha256_hex))))))))
