-- ===== src/S3/Base64/Laws.antt =====
-- backend/src/s3/base64.cpp: decoding what was encoded.
use mono_bucket.Base.{
  ℕ, ◌+◌, ◌*◌, ◌/◌, ◌%◌, ◌<◌, ◌≡◌, refl, ◌∙◌, ap, Bool, true, false, some, List, [], ◌∷◌, ◌==◌,
  Bytes, IsBytes, arith,
}
use mono_bucket.S3.Base64.{
  letter, value_of, sextet_3, sextet_2, sextet_1, sextet_0, base64_encode, prepend_value,
  group_values, group_bytes, decoded_group, decode_groups, base64_decode,
}

value_of-letter : (n : ℕ) → n < 64 → value_of (letter n) ≡ some n
unfolding value_of letter
value_of-letter n h = ground arith

letter_unpadded : (n : ℕ) → n < 64 → (letter n == b'=') ≡ false
unfolding letter
letter_unpadded n h = ground arith

group_values-letter :
    (is_final : Bool) (j n : ℕ) (group : Bytes)
    → n < 64
    → group_values is_final j 0 (letter n ∷ group)
      ≡ prepend_value n (group_values is_final (j + 1) 0 group)
unfolding group_values
group_values-letter is_final j n group h =
    rw (group_values, letter_unpadded n h, value_of-letter n h) refl

-- Each of the four characters of a full group is the letter of its six bits.
abbrev letters : ℕ → Bytes
letters t =
    letter (sextet_3 t) ∷ letter (sextet_2 t) ∷ letter (sextet_1 t) ∷ letter (sextet_0 t) ∷ []

abbrev sextets : ℕ → List ℕ
sextets t = sextet_3 t ∷ sextet_2 t ∷ sextet_1 t ∷ sextet_0 t ∷ []

group_values-letters :
    (is_final : Bool) (t : ℕ) → group_values is_final 0 0 (letters t) ≡ some (sextets t, 0)
unfolding group_values
group_values-letters is_final t =
    rw
      (
        group_values-letter is_final 0 (sextet_3 t)
            (letter (sextet_2 t) ∷ letter (sextet_1 t) ∷ letter (sextet_0 t) ∷ []) (omega arith),
        group_values-letter is_final 1 (sextet_2 t) (letter (sextet_1 t) ∷ letter (sextet_0 t) ∷ [])
            (omega arith),
        group_values-letter is_final 2 (sextet_1 t) (letter (sextet_0 t) ∷ []) (omega arith),
        group_values-letter is_final 3 (sextet_0 t) [] (omega arith),
      )
      refl

group_values-two :
    (t : ℕ)
    → group_values true 0 0 (letter (sextet_3 t) ∷ letter (sextet_2 t) ∷ b'=' ∷ b'=' ∷ [])
      ≡ some (sextet_3 t ∷ sextet_2 t ∷ 0 ∷ 0 ∷ [], 2)
unfolding group_values
group_values-two t =
    rw
      (
        group_values-letter true 0 (sextet_3 t) (letter (sextet_2 t) ∷ b'=' ∷ b'=' ∷ [])
            (omega arith),
        group_values-letter true 1 (sextet_2 t) (b'=' ∷ b'=' ∷ []) (omega arith),
      )
      refl

group_values-three :
    (t : ℕ)
    → group_values true 0 0
        (letter (sextet_3 t) ∷ letter (sextet_2 t) ∷ letter (sextet_1 t) ∷ b'=' ∷ [])
      ≡ some (sextet_3 t ∷ sextet_2 t ∷ sextet_1 t ∷ 0 ∷ [], 1)
unfolding group_values
group_values-three t =
    rw
      (
        group_values-letter true 0 (sextet_3 t)
            (letter (sextet_2 t) ∷ letter (sextet_1 t) ∷ b'=' ∷ []) (omega arith),
        group_values-letter true 1 (sextet_2 t) (letter (sextet_1 t) ∷ b'=' ∷ []) (omega arith),
        group_values-letter true 2 (sextet_1 t) (b'=' ∷ []) (omega arith),
      )
      refl

sextets_sum :
    (t : ℕ)
    → t < 16777216
    → sextet_3 t * 262144 + sextet_2 t * 4096 + sextet_1 t * 64 + sextet_0 t ≡ t
sextets_sum t h = omega arith

bytes_of_sum :
    (a b c : ℕ) (out : Bytes)
    → a < 256
    → b < 256
    → c < 256
    → let t = a * 65536 + b * 256 + c in
      t / 65536 % 256 ∷ t / 256 % 256 ∷ t % 256 ∷ out ≡ a ∷ b ∷ c ∷ out
bytes_of_sum a b c out p q r =
    let t = a * 65536 + b * 256 + c in
    let first : t / 65536 % 256 ≡ a = omega arith in
    let second : t / 256 % 256 ≡ b = omega arith in
    let third : t % 256 ≡ c = omega arith in rw (first, second, third) refl

group_bytes-sextets :
    (a b c : ℕ) (out : Bytes)
    → a < 256
    → b < 256
    → c < 256
    → group_bytes (sextets (a * 65536 + b * 256 + c), 0) out ≡ a ∷ b ∷ c ∷ out
group_bytes-sextets a b c out p q r =
    rw (sextets_sum (a * 65536 + b * 256 + c) (omega arith)) (bytes_of_sum a b c out p q r)

group_bytes-two :
    (a : ℕ)
    → a < 256
    → group_bytes (sextet_3 (a * 65536) ∷ sextet_2 (a * 65536) ∷ 0 ∷ 0 ∷ [], 2) [] ≡ a ∷ []
group_bytes-two a p = ap (λ x. x ∷ []) (omega arith)

group_bytes-three :
    (a b : ℕ)
    → a < 256
    → b < 256
    → (let t = a * 65536 + b * 256 in
        group_bytes (sextet_3 t ∷ sextet_2 t ∷ sextet_1 t ∷ 0 ∷ [], 1) [])
      ≡ a ∷ b ∷ []
group_bytes-three a b p q =
    let t = a * 65536 + b * 256 in
    let triple = sextet_3 t * 262144 + sextet_2 t * 4096 + sextet_1 t * 64 + 0 in
    let first : triple / 65536 % 256 ≡ a = omega arith in
    let second : triple / 256 % 256 ≡ b = omega arith in rw (first, second) refl

decode_groups-letters :
    (t : ℕ) (rest : Bytes)
    → decode_groups (
        letter (sextet_3 t)
        ∷ letter (sextet_2 t)
        ∷ letter (sextet_1 t)
        ∷ letter (sextet_0 t)
        ∷ rest)
      ≡ decoded_group (some (sextets t, 0)) (decode_groups rest)
unfolding decode_groups
decode_groups-letters t [] = rw (group_values-letters true t) refl
decode_groups-letters t (c ∷ rest) = rw (group_values-letters false t) refl

decode_groups-base64_encode :
    (text : Bytes) → IsBytes text → decode_groups (base64_encode text) ≡ some text
unfolding decode_groups base64_encode
decode_groups-base64_encode [] h = refl
decode_groups-base64_encode (a ∷ []) (p, h) =
    rw (group_values-two (a * 65536)) (ap (λ x. some x) (group_bytes-two a p))
decode_groups-base64_encode (a ∷ b ∷ []) (p, (q, h)) =
    rw (group_values-three (a * 65536 + b * 256)) (ap (λ x. some x) (group_bytes-three a b p q))
decode_groups-base64_encode (a ∷ b ∷ c ∷ text) (p, (q, (r, h))) =
    decode_groups-letters (a * 65536 + b * 256 + c) (base64_encode text)
    ∙ (ap (decoded_group (some (sextets (a * 65536 + b * 256 + c), 0)))
          (decode_groups-base64_encode text h)
        ∙ ap (λ x. some x) (group_bytes-sextets a b c text p q r))

-- Any bytes but none at all are what the decoding of their encoding yields.
pub base64_decode-base64_encode :
    (a : ℕ) (text : Bytes)
    → IsBytes (a ∷ text)
    → base64_decode (base64_encode (a ∷ text)) ≡ some (a ∷ text)
unfolding base64_decode base64_encode
base64_decode-base64_encode a [] h = decode_groups-base64_encode (a ∷ []) h
base64_decode-base64_encode a (b ∷ []) h = decode_groups-base64_encode (a ∷ b ∷ []) h
base64_decode-base64_encode a (b ∷ c ∷ text) h = decode_groups-base64_encode (a ∷ b ∷ c ∷ text) h
