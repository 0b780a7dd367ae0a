-- ===== src/S3/Names/Laws.antt =====
-- The bytes of valid names (request.cpp), which the keys of the store and of the cache rely on.
use mono_bucket.Base.{ℕ, ◌≤◌, ◌<◌, ◌≡◌, ◌≢◌, refl, true, false, [], ◌∷◌, arith, Bytes, length, All}
use mono_bucket.S3.Names.{
  is_valid_bucket_name, is_bucket_byte, bucket_bytes_from, is_valid_object_key, plain_bytes,
}

abbrev pub NoByte : ℕ → Bytes → Type 0
NoByte b = All (λ c. c ≢ b)

bucket_bytes-All :
    (previous : ℕ) (name : Bytes)
    → bucket_bytes_from previous name ≡ true
    → All (λ c. is_bucket_byte c ≡ true) name
unfolding bucket_bytes_from
bucket_bytes-All previous [] h = tt
bucket_bytes-All previous (c ∷ name) h = (ground arith, bucket_bytes-All c name (ground arith))

All-map : {P Q : ℕ → Type 0} → ((c : ℕ) → P c → Q c) → (name : Bytes) → All P name → All Q name
All-map f [] h = tt
All-map f (c ∷ name) (h, hs) = (f c h, All-map f name hs)

is_valid-All :
    (name : Bytes) → is_valid_bucket_name name ≡ true → All (λ c. is_bucket_byte c ≡ true) name
unfolding is_valid_bucket_name
is_valid-All [] h = tt
is_valid-All (c ∷ name) h = bucket_bytes-All 0 (c ∷ name) (ground arith)

bucket_byte-ne : (b : ℕ) → is_bucket_byte b ≡ false → (c : ℕ) → is_bucket_byte c ≡ true → c ≢ b
bucket_byte-ne b h c k e = let bad : is_bucket_byte b ≡ true = rw e at k in cc

is_valid-length :
    (name : Bytes) → is_valid_bucket_name name ≡ true → (3 ≤ length name) × (length name ≤ 63)
unfolding is_valid_bucket_name
is_valid-length [] h = ground arith
is_valid-length (c ∷ name) h = ground arith

-- A valid bucket name has 3 to 63 bytes, and no NUL and no `/` among them.
pub is_valid_bucket_name-bounds :
    (name : Bytes)
    → is_valid_bucket_name name ≡ true
    → (3 ≤ length name) × (length name ≤ 63) × NoByte 0 name × NoByte b'/' name
is_valid_bucket_name-bounds name h = (
  (is_valid-length name h).0,
  (is_valid-length name h).1,
  All-map (bucket_byte-ne 0 (unfold is_bucket_byte in refl)) name (is_valid-All name h),
  All-map (bucket_byte-ne b'/' (unfold is_bucket_byte in refl)) name (is_valid-All name h),
)

plain_bytes-All : (b : ℕ) → b < 0x20 → (key : Bytes) → plain_bytes key ≡ true → NoByte b key
unfolding plain_bytes
plain_bytes-All b low [] h = tt
plain_bytes-All b low (c ∷ key) h = ((λ e. ground arith), plain_bytes-All b low key (ground arith))

-- A valid object key has 1 to 1024 bytes, and no byte below 0x20 among them.
pub is_valid_object_key-bounds :
    (b : ℕ) (key : Bytes)
    → b < 0x20
    → is_valid_object_key key ≡ true
    → (1 ≤ length key) × (length key ≤ 1024) × NoByte b key
unfolding is_valid_object_key
is_valid_object_key-bounds b [] low h = ground arith
is_valid_object_key-bounds b (c ∷ key) low h =
    (omega arith, ground arith, plain_bytes-All b low (c ∷ key) (ground arith))
