-- ===== src/S3/Encoded/Laws.antt =====
-- backend/src/s3/bucket_handlers.cpp and handlers.cpp: a continuation token gives back its key, and
-- a `Content-MD5` is accepted exactly of the body it is the digest of.
use mono_bucket.Base.{
  ℕ, ◌/◌, ◌%◌, ◌<◌, ◌≡◌, refl, ◌↔◌, ap, inl, inr, [], ◌∷◌, Bytes, IsBytes, Bool-cases, ==_iff,
  length, ok, arith,
}
use mono_bucket.S3.Base64.{base64_encode}
use mono_bucket.S3.Base64.Laws.{base64_decode-base64_encode}
use mono_bucket.S3.Encoded.{
  encode_continuation, decode_continuation, compare_md5, check_content_md5,
}
use mono_bucket.S3.Sigv4.{lower_hex, secure_equals, to_hex}
use mono_bucket.S3.Sigv4.Compare.{secure_equals_iff}

-- A listing goes on from the key it stopped at, whatever the bytes of the key, provided there are
-- some.
pub decode_continuation-encode_continuation :
    (a : ℕ) (key : Bytes)
    → IsBytes (a ∷ key)
    → decode_continuation (encode_continuation (a ∷ key)) ≡ ok (a ∷ key)
unfolding decode_continuation encode_continuation
decode_continuation-encode_continuation a key h =
    rw (decode_continuation, encode_continuation, base64_decode-base64_encode a key h) refl

lower_hex_injective : (m n : ℕ) → m < 16 → n < 16 → lower_hex m ≡ lower_hex n → m ≡ n
unfolding lower_hex
lower_hex_injective m n p q h = ground arith

byte_from_digits :
    (x y : ℕ)
    → x < 256
    → y < 256
    → lower_hex (x / 16) ≡ lower_hex (y / 16)
    → lower_hex (x % 16) ≡ lower_hex (y % 16)
    → x ≡ y
byte_from_digits x y p q h l =
    let high = lower_hex_injective (x / 16) (y / 16) (omega arith) (omega arith) h in
    let low = lower_hex_injective (x % 16) (y % 16) (omega arith) (omega arith) l in
    omega (arith, high, low)

pub to_hex_injective : (a b : Bytes) → IsBytes a → IsBytes b → to_hex a ≡ to_hex b → a ≡ b
unfolding to_hex
to_hex_injective [] [] p q h = refl
to_hex_injective [] (y ∷ b) p q h = absurd (grind arith)
to_hex_injective (x ∷ a) [] p q h = absurd (grind arith)
to_hex_injective (x ∷ a) (y ∷ b) (p, ps) (q, qs) h =
    let high : lower_hex (x / 16) ≡ lower_hex (y / 16) = grind arith in
    let low : lower_hex (x % 16) ≡ lower_hex (y % 16) = grind arith in
    let rest : to_hex a ≡ to_hex b = grind arith in
    let first = byte_from_digits x y p q high low in
    let others = to_hex_injective a b ps qs rest in rw (first, others) refl

check_content_md5-compare_md5 :
    (expected actual_hex : Bytes)
    → IsBytes expected
    → length expected ≡ 16
    → check_content_md5 (base64_encode expected) actual_hex ≡ compare_md5 expected actual_hex
unfolding check_content_md5
check_content_md5-compare_md5 [] actual_hex p h = absurd (omega (arith, h))
check_content_md5-compare_md5 (a ∷ text) actual_hex p h =
    rw (check_content_md5, base64_decode-base64_encode a text p) refl

compare_md5_iff :
    (expected actual_hex : Bytes)
    → length expected ≡ 16
    → (compare_md5 expected actual_hex ≡ ok tt) ↔ (actual_hex ≡ to_hex expected)
unfolding compare_md5
compare_md5_iff expected actual_hex h =
    let sixteen = (==_iff (length expected) 16).1 h in
    let same = secure_equals_iff actual_hex (to_hex expected) in
    elim (Bool-cases (secure_equals actual_hex (to_hex expected))) [
      | inl t ↦ rw (compare_md5, sixteen, t) (λ _. same.0 t, λ _. refl)
      | inr f ↦
          rw (compare_md5, sixteen, f)
            (λ e. absurd (grind arith), λ e. let t = same.1 e in absurd (grind arith))
    ]

-- A `Content-MD5` that encodes 16 bytes is accepted exactly where these are the digest of the body.
pub check_content_md5_iff :
    (expected digest : Bytes)
    → IsBytes expected
    → IsBytes digest
    → length expected ≡ 16
    → (check_content_md5 (base64_encode expected) (to_hex digest) ≡ ok tt) ↔ (digest ≡ expected)
check_content_md5_iff expected digest p q h =
    let checked = compare_md5_iff expected (to_hex digest) h in
    rw (check_content_md5-compare_md5 expected (to_hex digest) p h)
      (λ e. to_hex_injective digest expected q p (checked.0 e), λ e. checked.1 (ap to_hex e))
