-- ===== src/S3/Sigv4/Authorization.antt =====
-- backend/src/s3/sigv4.cpp: reading an `Authorization` header, a credential, the list of signed
-- headers, and the mode of a body.
pub mod Blanks
pub mod Laws
use mono_bucket.Base.{
  ℕ, zero, suc, ◌≤◌, Bool, true, false, ◌&&◌, ◌||◌, not, Option, none, some, List, [], ◌∷◌, ◌++◌,
  leb, ◌==◌, if◌then◌else◌, all, Bytes, bytes_eq, codes, length, Result, ok, err,
}
use mono_bucket.S3.Chunked.Lines.{no_bytes}
use mono_bucket.S3.Errors.{S3ErrorCode, invalid_argument, invalid_request}
use mono_bucket.S3.Range.{is_digit, split_at_first, strip_prefix}
use mono_bucket.S3.Text.{is_blank, split_at_each, to_lower}

-- The loop of `canonicalHeaderValue`: whether a blank is pending, and whether `out` is empty.
unfoldable pub canonical_from : Bool → Bool → Bytes → Bytes
unfolding is_blank
canonical_from pending_space is_empty [] = []
canonical_from pending_space is_empty (c ∷ value) =
    let skipped = canonical_from (not is_empty) is_empty value in
    let rest = canonical_from false false value in
    if is_blank c then skipped else if pending_space then b' ' ∷ c ∷ rest else c ∷ rest

unfoldable pub canonical_header_value : Bytes → Bytes
unfolding canonical_from
canonical_header_value value = canonical_from false true value

unfoldable pub lowered_names : List Bytes → List Bytes
lowered_names [] = []
lowered_names (name ∷ names) =
    let rest = lowered_names names in if no_bytes name then rest else to_lower name ∷ rest

unfoldable pub split_signed_headers : Bytes → List Bytes
unfolding lowered_names
split_signed_headers list = lowered_names (split_at_each b';' list)

pub record CredentialScope : Type 0 where
  pub access_key : Bytes
  pub date_stamp : Bytes
  pub region : Bytes
  pub service : Bytes
  pub terminator : Bytes

unfoldable pub credential_scope : CredentialScope → Bytes
credential_scope s =
    s.date_stamp ++ (b'/' ∷ (s.region ++ (b'/' ∷ (s.service ++ (b'/' ∷ s.terminator)))))

-- The five parts, in the order in which the loop fills them. What is after a fifth `/` is not read.
unfoldable pub credential_parts : List Bytes → Result S3ErrorCode CredentialScope
credential_parts (k ∷ d ∷ r ∷ s ∷ t ∷ rest) =
    ok record { access_key = k; date_stamp = d; region = r; service = s; terminator = t }
credential_parts _ = err invalid_argument

unfoldable pub parse_credential : Bytes → Result S3ErrorCode CredentialScope
unfolding credential_parts
parse_credential text = credential_parts (split_at_each b'/' text)

pub record AuthorizationHeader : Type 0 where
  pub credential : Bytes
  pub signed_headers : Bytes
  pub signature : Bytes

unfoldable pub skip_separators : Bytes → Bytes
skip_separators [] = []
skip_separators (c ∷ value) =
    let rest = skip_separators value in if c == b' ' || c == b',' then rest else c ∷ value

abbrev pub unless_space : ℕ → Bytes → Bytes
unless_space c [] = if c == b' ' then [] else c ∷ []
unless_space c (d ∷ text) = c ∷ d ∷ text

-- while (!field.empty() && field.back() == ' ') field.remove_suffix(1)
unfoldable pub without_spaces : Bytes → Bytes
without_spaces [] = []
without_spaces (c ∷ text) = unless_space c (without_spaces text)

abbrev pub or_all : Bytes → Option (Bytes × Bytes) → Bytes × Bytes
or_all text none = (text, [])
or_all text (some parts) = parts

-- The name, the value and what follows the comma, after the separators were skipped.
unfoldable pub field_of : Bytes → Option (Bytes × (Bytes × Bytes))
unfolding without_spaces split_at_first
field_of [] = none
field_of (c ∷ value) = elim (split_at_first b'=' (c ∷ value)) [
  | none ↦ none
  | some (name, after) ↦
      let (field, rest) = or_all after (split_at_first b',' after) in
      some (name, (without_spaces field, rest))
]

unfoldable pub next_field : Bytes → Option (Bytes × (Bytes × Bytes))
unfolding field_of skip_separators
next_field value = field_of (skip_separators value)

unfoldable pub set_field : Bytes → Bytes → AuthorizationHeader → AuthorizationHeader
set_field name field h =
    if bytes_eq name (codes "Credential")
    then record { credential = field; signed_headers = h.signed_headers; signature = h.signature }
    else if bytes_eq name (codes "SignedHeaders")
    then record { credential = h.credential; signed_headers = field; signature = h.signature }
    else if bytes_eq name (codes "Signature")
    then record { credential = h.credential; signed_headers = h.signed_headers; signature = field }
    else h

-- The loop over the fields.
unfoldable pub fields_from : ℕ → Bytes → AuthorizationHeader → AuthorizationHeader
unfolding next_field set_field
fields_from zero value h = h
fields_from (suc fuel) value h = elim (next_field value) [
  | none ↦ h
  | some (name, (field, rest)) ↦ fields_from fuel rest (set_field name field h)
]

abbrev pub no_header : AuthorizationHeader
no_header = record { credential = []; signed_headers = []; signature = [] }

unfoldable pub check_header : AuthorizationHeader → Result S3ErrorCode AuthorizationHeader
check_header h =
    if no_bytes h.credential || (no_bytes h.signed_headers || no_bytes h.signature)
    then err invalid_request
    else ok h

unfoldable pub parse_authorization : Bytes → Result S3ErrorCode AuthorizationHeader
unfolding check_header fields_from strip_prefix
parse_authorization text = elim (strip_prefix (codes "AWS4-HMAC-SHA256") text) [
  | none ↦ err invalid_request
  | some value ↦ check_header (fields_from (length value) value no_header)
]

pub data PayloadMode : Type 0 where
  signed unsigned streaming_signed streaming_unsigned : PayloadMode

unfoldable pub is_hex_digit : ℕ → Bool
unfolding is_digit
is_hex_digit c = is_digit c || ((leb b'a' c && leb c b'f') || (leb b'A' c && leb c b'F'))

-- The mode, and what is written to `digestOut`.
unfoldable pub payload_mode_for : Bytes → Bytes → Result S3ErrorCode (PayloadMode × Bytes)
unfolding is_hex_digit to_lower
payload_mode_for content_sha256 digest_out =
    if bytes_eq content_sha256 (codes "UNSIGNED-PAYLOAD")
    then ok (unsigned, digest_out)
    else if bytes_eq content_sha256 (codes "STREAMING-AWS4-HMAC-SHA256-PAYLOAD")
        || bytes_eq content_sha256 (codes "STREAMING-AWS4-HMAC-SHA256-PAYLOAD-TRAILER")
    then ok (streaming_signed, digest_out)
    else if bytes_eq content_sha256 (codes "STREAMING-UNSIGNED-PAYLOAD-TRAILER")
    then ok (streaming_unsigned, digest_out)
    else if not (length content_sha256 == 64) || not (all is_hex_digit content_sha256)
    then err invalid_argument
    else ok (signed, to_lower content_sha256)
