-- ===== src/S3/Base64.antt =====
-- backend/src/s3/base64.cpp: base64 with padding.
pub mod Laws
use mono_bucket.Base.{
  ℕ, zero, suc, ◌+◌, ◌-◌, ◌*◌, ◌/◌, ◌%◌, Bool, true, false, ◌&&◌, ◌||◌, not, Option, none, some,
  List, [], ◌∷◌, ltb, leb, ◌==◌, if◌then◌else◌, Bytes,
}

-- kAlphabet[n]
unfoldable pub letter : ℕ → ℕ
letter n =
    if ltb n 26
    then b'A' + n
    else if ltb n 52
    then b'a' + (n - 26)
    else if ltb n 62
    then b'0' + (n - 52)
    else if n == 62
    then b'+'
    else b'/'

-- -1 is `none`.
unfoldable pub value_of : ℕ → Option ℕ
value_of c =
    if leb b'A' c && leb c b'Z'
    then some (c - b'A')
    else if leb b'a' c && leb c b'z'
    then some (c - b'a' + 26)
    else if leb b'0' c && leb c b'9'
    then some (c - b'0' + 52)
    else if c == b'+'
    then some 62
    else if c == b'/'
    then some 63
    else none

-- (triple >> 6 * place) & 0x3F
abbrev pub sextet_3 : ℕ → ℕ
sextet_3 triple = triple / 262144 % 64

abbrev pub sextet_2 : ℕ → ℕ
sextet_2 triple = triple / 4096 % 64

abbrev pub sextet_1 : ℕ → ℕ
sextet_1 triple = triple / 64 % 64

abbrev pub sextet_0 : ℕ → ℕ
sextet_0 triple = triple % 64

unfoldable pub base64_encode : Bytes → Bytes
unfolding letter
base64_encode [] = []
base64_encode (a ∷ []) =
    let triple = a * 65536 in letter (sextet_3 triple) ∷ letter (sextet_2 triple) ∷ b'=' ∷ b'=' ∷ []
base64_encode (a ∷ b ∷ []) =
    let triple = a * 65536 + b * 256 in
    letter (sextet_3 triple) ∷ letter (sextet_2 triple) ∷ letter (sextet_1 triple) ∷ b'=' ∷ []
base64_encode (a ∷ b ∷ c ∷ text) =
    let triple = a * 65536 + b * 256 + c in
    letter (sextet_3 triple)
    ∷ letter (sextet_2 triple)
    ∷ letter (sextet_1 triple)
    ∷ letter (sextet_0 triple)
    ∷ base64_encode text

abbrev pub prepend_value : ℕ → Option (List ℕ × ℕ) → Option (List ℕ × ℕ)
prepend_value v none = none
prepend_value v (some (values, padding)) = some (v ∷ values, padding)

-- The loop over the characters of a group: the values and the padding, from position j on.
unfoldable pub group_values : Bool → ℕ → ℕ → Bytes → Option (List ℕ × ℕ)
unfolding value_of
group_values is_final j padding [] = some ([], padding)
group_values is_final j padding (ch ∷ group) =
    let padded = prepend_value 0 (group_values is_final (j + 1) (padding + 1) group) in
    let later = group_values is_final (j + 1) padding group in
    if ch == b'='
    then (if not is_final || ltb j 2 then none else padded)
    else if ltb 0 padding
    then none
    else elim (value_of ch) [ none ↦ none | some v ↦ prepend_value v later ]

-- The bytes of a group, before those that follow.
abbrev pub group_bytes : List ℕ × ℕ → Bytes → Bytes
group_bytes (v ∷ w ∷ x ∷ y ∷ [], padding) out =
    let triple = v * 262144 + w * 4096 + x * 64 + y in
    triple / 65536 % 256
    ∷ (if ltb padding 2
        then triple / 256 % 256 ∷ (if ltb padding 1 then triple % 256 ∷ out else out)
        else (if ltb padding 1 then triple % 256 ∷ out else out))
group_bytes _ out = out

abbrev pub decoded_group : Option (List ℕ × ℕ) → Option Bytes → Option Bytes
decoded_group (some group) (some out) = some (group_bytes group out)
decoded_group _ _ = none

-- The loop over the groups. A text of other than a multiple of 4 characters has no result.
unfoldable pub decode_groups : Bytes → Option Bytes
unfolding group_values
decode_groups [] = some []
decode_groups (c ∷ d ∷ e ∷ f ∷ []) =
    decoded_group (group_values true 0 0 (c ∷ d ∷ e ∷ f ∷ [])) (some [])
decode_groups (c ∷ d ∷ e ∷ f ∷ g ∷ text) =
    decoded_group (group_values false 0 0 (c ∷ d ∷ e ∷ f ∷ [])) (decode_groups (g ∷ text))
decode_groups _ = none

unfoldable pub base64_decode : Bytes → Option Bytes
unfolding decode_groups
base64_decode [] = none
base64_decode (c ∷ text) = decode_groups (c ∷ text)
