-- ===== src/S3/Chunked/Tests.antt =====
-- backend/src/s3/chunked.cpp on a small body, with hashes of one byte.
use mono_bucket.Base.{
  ◌+◌, ◌%◌, ◌≡◌, refl, true, false, some, [], ◌∷◌, ◌++◌, Bytes, codes, length, Result, ok, err,
}
use mono_bucket.S3.Chunked.{
  Options, ChunkedDecoder, new_decoder, decode, expected_signature, check_trailers, check_length,
}
use mono_bucket.S3.Chunked.Accepted.{decode-IsAccepted}
use mono_bucket.S3.Chunked.Fuel.{decode-returns}
use mono_bucket.S3.Chunked.Lines.{take_line, parse_hex_size, chunk_header_fields}
use mono_bucket.S3.Chunked.Signed.{SignedChunks, IsAccepted}
use mono_bucket.S3.Chunked.Written.{decode-SignedChunks}
use mono_bucket.S3.Errors.{S3ErrorCode, signature_does_not_match}
use mono_bucket.S3.Range.{strip_prefix, split_at_first}
use mono_bucket.S3.Sigv4.{chunk_signature, secure_equals}
use mono_bucket.S3.Sigv4.Compare.{secure_equals_iff}
use mono_bucket.S3.Text.{crlf, to_lower}
use mono_bucket.S3.Uri.{hex_value}

abbrev small_hmac : Bytes → Bytes → Bytes
small_hmac key text = (length key + length text) % 256 ∷ []

abbrev small_sha : Bytes → Bytes
small_sha text = codes "00"

abbrev signed : Options
signed = record {
  verify_signatures = true;
  signing_key = [];
  amz_date = [];
  scope = [];
  seed_signature = codes "00";
  expect_trailer_signature = false;
  declared_length = 3;
}

abbrev whole_body : Bytes
whole_body =
    codes "3;chunk-signature=61"
    ++ (crlf ++ (codes "abc" ++ (crlf ++ (codes "0;chunk-signature=61" ++ (crlf ++ crlf)))))

abbrev forged_body : Bytes
forged_body =
    codes "3;chunk-signature=61"
    ++ (crlf ++ (codes "abc" ++ (crlf ++ (codes "1;chunk-signature=62" ++ (crlf ++ codes "d")))))

abbrev decoded_abc : ChunkedDecoder
decoded_abc = record { options = signed; decoded = 3; trailers = []; written = codes "abc" ∷ [] }

decode_whole :
    decode small_hmac small_sha whole_body (new_decoder signed) ≡ some (ok tt, decoded_abc)
unfolding decode take_line chunk_header_fields split_at_first strip_prefix parse_hex_size hex_value
    secure_equals expected_signature chunk_signature to_lower check_trailers check_length
decode_whole = refl

decode_forged :
    decode small_hmac small_sha forged_body (new_decoder signed)
    ≡ some (err signature_does_not_match, decoded_abc)
unfolding decode take_line chunk_header_fields split_at_first strip_prefix parse_hex_size hex_value
    secure_equals expected_signature chunk_signature to_lower
decode_forged = refl

decode-returns_example :
    (r : Result S3ErrorCode (Unit {0}) × ChunkedDecoder) × (decode small_hmac small_sha forged_body
        (new_decoder signed)
      ≡ some r)
decode-returns_example = decode-returns small_hmac small_sha forged_body (new_decoder signed)

decode-SignedChunks_example :
    (rest : Bytes) × (last : Bytes) × SignedChunks small_hmac small_sha signed
      (codes "00")
      (codes "abc" ∷ [])
      forged_body
      rest
      last
decode-SignedChunks_example =
    decode-SignedChunks small_hmac small_sha signed forged_body (err signature_does_not_match)
      decoded_abc refl decode_forged

decode-IsAccepted_example : IsAccepted small_hmac small_sha signed whole_body decoded_abc
decode-IsAccepted_example =
    decode-IsAccepted small_hmac small_sha signed whole_body decoded_abc refl decode_whole

secure_equals_iff_example :
    (secure_equals (codes "61") (codes "62") ≡ true → codes "61" ≡ codes "62")
    × (codes "61" ≡ codes "62" → secure_equals (codes "61") (codes "62") ≡ true)
secure_equals_iff_example = secure_equals_iff (codes "61") (codes "62")
