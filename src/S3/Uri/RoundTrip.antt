-- ===== src/S3/Uri/RoundTrip.antt =====
-- backend/src/s3/uri.cpp: decoding what was encoded.
use mono_bucket.Base.{
  ℕ, ◌/◌, ◌%◌, ◌<◌, ◌≡◌, refl, ◌∙◌, ap, inl, inr, Bool, true, false, ◌&&◌, ◌||◌, not, some, [], ◌∷◌,
  ◌==◌, if◌then◌else◌, Bytes, IsBytes, arith, Bool-cases,
}
use mono_bucket.S3.Uri.{is_unreserved, hex_value, hex_digit, uri_encode, escaped, uri_decode}

hex_value-hex_digit : (n : ℕ) → n < 16 → hex_value (hex_digit n) ≡ some n
unfolding hex_value hex_digit
hex_value-hex_digit n h = ground arith

escaped-digits : (b : ℕ) → b < 256 → escaped (hex_digit (b / 16)) (hex_digit (b % 16)) ≡ some b
unfolding escaped
escaped-digits b h =
    rw
      (
        hex_value-hex_digit (b / 16) (omega arith),
        hex_value-hex_digit (b % 16) (omega arith),
        escaped,
      )
      (ap (λ x. some x) (omega arith))

-- A byte that is no % stands for itself, whatever follows.
uri_decode-plain :
    (c : ℕ) (text : Bytes) → (c == b'%') ≡ false → uri_decode (c ∷ text) ≡ c ∷ uri_decode text
unfolding uri_decode
uri_decode-plain c [] h = refl
uri_decode-plain c (d ∷ []) h = refl
uri_decode-plain c (d ∷ e ∷ text) h = rw h refl

uri_decode-percent :
    (high low value : ℕ) (text : Bytes)
    → escaped high low ≡ some value
    → uri_decode (b'%' ∷ high ∷ low ∷ text) ≡ value ∷ uri_decode text
unfolding uri_decode
uri_decode-percent high low value text e = rw (e, uri_decode) refl

no_percent :
    (c : ℕ) (encode_slash : Bool)
    → (is_unreserved c || (c == b'/' && not encode_slash)) ≡ true
    → (c == b'%') ≡ false
unfolding is_unreserved
no_percent c true h = ground arith
no_percent c false h = ground arith

-- Any bytes are what the decoding of their encoding yields, whether slashes are encoded or not.
pub uri_decode-uri_encode :
    (text : Bytes) (encode_slash : Bool)
    → IsBytes text
    → uri_decode (uri_encode text encode_slash) ≡ text
unfolding uri_encode uri_decode
uri_decode-uri_encode [] encode_slash h = refl
uri_decode-uri_encode (c ∷ text) encode_slash (b, h) =
    let rest = uri_encode text encode_slash in
    let later = ap (λ r. c ∷ r) (uri_decode-uri_encode text encode_slash h) in
    elim (Bool-cases (is_unreserved c || (c == b'/' && not encode_slash))) [
      | inl t ↦
          ap uri_decode (plain c rest t)
          ∙ uri_decode-plain c rest (no_percent c encode_slash t)
          ∙ later
      | inr t ↦
          ap uri_decode (coded c rest t)
          ∙ uri_decode-percent (hex_digit (c / 16)) (hex_digit (c % 16)) c rest (escaped-digits c b)
          ∙ later
    ]
  where
    plain :
        (c : ℕ) (rest : Bytes)
        → (is_unreserved c || (c == b'/' && not encode_slash)) ≡ true
        → (if is_unreserved c || (c == b'/' && not encode_slash)
            then c ∷ rest
            else b'%' ∷ hex_digit (c / 16) ∷ hex_digit (c % 16) ∷ rest)
          ≡ c ∷ rest
    plain c rest t = rw t refl

    coded :
        (c : ℕ) (rest : Bytes)
        → (is_unreserved c || (c == b'/' && not encode_slash)) ≡ false
        → (if is_unreserved c || (c == b'/' && not encode_slash)
            then c ∷ rest
            else b'%' ∷ hex_digit (c / 16) ∷ hex_digit (c % 16) ∷ rest)
          ≡ b'%' ∷ hex_digit (c / 16) ∷ hex_digit (c % 16) ∷ rest
    coded c rest t = rw t refl
