-- ===== src/S3/Sigv4/Tests.antt =====
-- backend/src/s3/sigv4.cpp: runs of the readers of a request's signature.
use mono_bucket.Base.{◌≡◌, refl, [], ◌∷◌, ◌++◌, Bytes, bytes_eq, codes, ok, err, arith}
use mono_bucket.S3.Errors.{invalid_argument, invalid_request}
use mono_bucket.S3.Sigv4.Authorization.{
  canonical_header_value, split_signed_headers, parse_credential, parse_authorization,
  lowered_names, without_spaces, payload_mode_for, streaming_unsigned,
}
use mono_bucket.S3.Text.{split_at_each, to_lower}
use mono_bucket.S3.Sigv4.Authorization.Laws.{
  IsValue, written_authorization, parse_authorization-written,
}

abbrev test_credential : Bytes
test_credential = codes "AK/20260816/us-east-1/s3/aws4_request"

test_names-IsValue : IsValue (codes "host;x-amz-date")
unfolding without_spaces
test_names-IsValue = record { is_some = refl; is_one = grind arith; is_trimmed = refl }

test_credential-IsValue : IsValue test_credential
unfolding without_spaces
test_credential-IsValue = record { is_some = refl; is_one = grind arith; is_trimmed = refl }

test_signature-IsValue : IsValue (codes "0a1b")
unfolding without_spaces
test_signature-IsValue = record { is_some = refl; is_one = grind arith; is_trimmed = refl }

parse_authorization-written_example :
    parse_authorization
      (written_authorization test_credential (codes "host;x-amz-date") (codes "0a1b"))
    ≡ ok record {
      credential = test_credential;
      signed_headers = codes "host;x-amz-date";
      signature = codes "0a1b";
    }
parse_authorization-written_example =
    parse_authorization-written test_credential (codes "host;x-amz-date") (codes "0a1b")
      test_credential-IsValue test_names-IsValue test_signature-IsValue

test_canonical_header_value : canonical_header_value (codes "  a  b ") ≡ codes "a b"
unfolding canonical_header_value
test_canonical_header_value = refl

test_split_signed_headers :
    split_signed_headers (codes "Host;;Date") ≡ codes "host" ∷ codes "date" ∷ []
unfolding split_signed_headers lowered_names split_at_each to_lower
test_split_signed_headers = refl

test_parse_credential_short :
    parse_credential (codes "AK/20260816/us-east-1/s3") ≡ err invalid_argument
unfolding parse_credential split_at_each
test_parse_credential_short = refl

test_parse_authorization_basic : parse_authorization (codes "Basic abc") ≡ err invalid_request
unfolding parse_authorization
test_parse_authorization_basic = refl

test_payload_mode_for :
    payload_mode_for (codes "STREAMING-UNSIGNED-PAYLOAD-TRAILER") [] ≡ ok (streaming_unsigned, [])
unfolding payload_mode_for bytes_eq
test_payload_mode_for = refl

test_parse_credential_more :
    parse_credential (test_credential ++ codes "/more/parts") ≡ parse_credential test_credential
unfolding parse_credential split_at_each
test_parse_credential_more = refl
