-- ===== src/S3/Uri.antt =====
-- backend/src/s3/uri.cpp: percent-encoding.
pub mod RoundTrip
use mono_bucket.Base.{
  ℕ, ◌+◌, ◌-◌, ◌*◌, ◌/◌, ◌%◌, Bool, true, false, ◌&&◌, ◌||◌, not, Option, none, some, List, [], ◌∷◌,
  ltb, leb, ◌==◌, if◌then◌else◌, Bytes,
}

unfoldable pub is_unreserved : ℕ → Bool
is_unreserved c =
    (leb b'A' c && leb c b'Z')
    || ((leb b'a' c && leb c b'z')
        || ((leb b'0' c && leb c b'9') || (c == b'-' || (c == b'_' || (c == b'.' || c == b'~')))))

-- -1 is `none`.
unfoldable pub hex_value : ℕ → Option ℕ
hex_value c =
    if leb b'0' c && leb c b'9'
    then some (c - b'0')
    else if leb b'a' c && leb c b'f'
    then some (c - b'a' + 10)
    else if leb b'A' c && leb c b'F'
    then some (c - b'A' + 10)
    else none

-- kHexDigits[n]
unfoldable pub hex_digit : ℕ → ℕ
hex_digit n = if ltb n 10 then b'0' + n else b'A' + (n - 10)

unfoldable pub uri_encode : Bytes → Bool → Bytes
unfolding is_unreserved hex_digit
uri_encode [] encode_slash = []
uri_encode (c ∷ text) encode_slash =
    let rest = uri_encode text encode_slash in
    if is_unreserved c || (c == b'/' && not encode_slash)
    then c ∷ rest
    else b'%' ∷ hex_digit (c / 16) ∷ hex_digit (c % 16) ∷ rest

-- The value of the two digits after a %, where there are two.
unfoldable pub escaped : ℕ → ℕ → Option ℕ
unfolding hex_value
escaped high low = elim (hex_value high) [
  | none ↦ none
  | some h ↦ elim (hex_value low) [ none ↦ none | some l ↦ some (h * 16 + l) ]
]

unfoldable pub uri_decode : Bytes → Bytes
unfolding escaped
uri_decode [] = []
uri_decode (c ∷ []) = c ∷ []
uri_decode (c ∷ d ∷ []) = c ∷ d ∷ []
uri_decode (c ∷ high ∷ low ∷ text) =
    let plain = c ∷ uri_decode (high ∷ low ∷ text) in
    let rest = uri_decode text in
    if c == b'%' then elim (escaped high low) [ none ↦ plain | some b ↦ b ∷ rest ] else plain
