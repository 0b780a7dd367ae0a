-- ===== src/S3/Names.antt =====
-- backend/src/s3/request.hpp and request.cpp: which bucket names and object keys are valid.
pub mod Laws
use mono_bucket.Base.{
  ℕ, zero, suc, ◌+◌, ◌-◌, ◌*◌, Bool, true, false, ◌&&◌, ◌||◌, not, Option, none, some, List, [],
  ◌∷◌, ltb, leb, ◌==◌, if◌then◌else◌, Bytes, bytes_eq, length, codes,
}
use mono_bucket.Core.Identity.{is_base}
use mono_bucket.S3.Range.{is_digit}

-- The scan of `looksLikeIpv4`: the numbers of octets and of digits, and the octet's value. One more
-- round than there are bytes closes the last octet.
unfoldable pub octets_from : ℕ → ℕ → ℕ → Bytes → Bool
octets_from octets digits value [] =
    if digits == 0 || (ltb 3 digits || ltb 255 value) then false else (octets + 1) == 4
octets_from octets digits value (c ∷ name) =
    let next_octet = octets_from (octets + 1) 0 0 name in
    let next_digit = octets_from octets (digits + 1) (value * 10 + (c - b'0')) name in
    if c == b'.'
    then (if digits == 0 || (ltb 3 digits || ltb 255 value) then false else next_octet)
    else if is_digit c
    then next_digit
    else false

unfoldable pub looks_like_ipv4 : Bytes → Bool
unfolding octets_from is_digit
looks_like_ipv4 name = octets_from 0 0 0 name

unfoldable pub is_bucket_byte : ℕ → Bool
is_bucket_byte c =
    (leb b'a' c && leb c b'z') || ((leb b'0' c && leb c b'9') || (c == b'-' || c == b'.'))

-- The loop of `isValidBucketName`, with the previous byte.
unfoldable pub bucket_bytes_from : ℕ → Bytes → Bool
unfolding is_bucket_byte
bucket_bytes_from previous [] = true
bucket_bytes_from previous (c ∷ name) =
    let rest = bucket_bytes_from c name in
    if not (is_bucket_byte c) then false else if c == b'.' && previous == b'.' then false else rest

unfoldable pub last_byte : ℕ → Bytes → ℕ
last_byte c [] = c
last_byte c (d ∷ name) = last_byte d name

unfoldable pub is_valid_bucket_name : Bytes → Bool
is_valid_bucket_name [] = false
is_valid_bucket_name (c ∷ name) =
    if ltb (length (c ∷ name)) 3 || ltb 63 (length (c ∷ name))
    then false
    else if not (is_base c)
    then false
    else if not (is_base (last_byte c name))
    then false
    else if not (bucket_bytes_from 0 (c ∷ name))
    then false
    else not (looks_like_ipv4 (c ∷ name))

-- Bytes starting with, and containing a text.
unfoldable pub bytes_start : Bytes → Bytes → Bool
bytes_start [] text = true
bytes_start (p ∷ prefix) [] = false
bytes_start (p ∷ prefix) (c ∷ text) = p == c && bytes_start prefix text

unfoldable pub bytes_contain : Bytes → Bytes → Bool
unfolding bytes_start
bytes_contain part [] = bytes_start part []
bytes_contain part (c ∷ text) = bytes_start part (c ∷ text) || bytes_contain part text

unfoldable pub plain_bytes : Bytes → Bool
plain_bytes [] = true
plain_bytes (c ∷ text) =
    let rest = plain_bytes text in if ltb c 0x20 || c == 0x7F then false else rest

unfoldable pub is_valid_object_key : Bytes → Bool
is_valid_object_key [] = false
is_valid_object_key (c ∷ key) =
    if ltb 1024 (length (c ∷ key))
    then false
    else if bytes_eq (c ∷ key) (codes ".")
        || (bytes_eq (c ∷ key) (codes "..")
            || (bytes_contain (codes "/../") (c ∷ key) || bytes_start (codes "../") (c ∷ key)))
    then false
    else plain_bytes (c ∷ key)
