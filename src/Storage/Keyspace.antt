-- ===== src/Storage/Keyspace.antt =====
-- backend/src/storage/keyspace.hpp and keyspace.cpp: the keys of the metadata store, as bytes.
pub mod Keys
pub mod Ranges
use mono_bucket.Base.{
  ℕ, zero, suc, ◌+◌, ◌*◌, ◌/◌, ◌%◌, ◌^◌, String, Bool, true, false, not, ◌||◌, Option, none, some,
  List, [], ◌∷◌, ◌++◌, ◌==◌, if◌then◌else◌, length, Bytes,
}

abbrev pub separator : ℕ
separator = 0

-- The tags: 'b', 'o', 'u', 'U', 'p', 'x', 'm', 'k', 'a' and 'A'.
abbrev pub bucket_tag : ℕ
bucket_tag = 98

abbrev pub object_tag : ℕ
object_tag = 111

abbrev pub upload_by_key_tag : ℕ
upload_by_key_tag = 117

abbrev pub upload_by_id_tag : ℕ
upload_by_id_tag = 85

abbrev pub part_tag : ℕ
part_tag = 112

abbrev pub orphan_tag : ℕ
orphan_tag = 120

abbrev pub meta_tag : ℕ
meta_tag = 109

abbrev pub access_key_tag : ℕ
access_key_tag = 107

abbrev pub user_tag : ℕ
user_tag = 97

abbrev pub audit_tag : ℕ
audit_tag = 65

-- `tagged`: bucket, uploadById, orphan, user, meta and accessKey apply it to their tag.
unfoldable pub tagged : ℕ → Bytes → Bytes
tagged tag rest = tag ∷ rest

-- appendBigEndian32 and appendBigEndian64: the low `k` bytes of a number, the highest first.
unfoldable pub big_endian : ℕ → ℕ → Bytes
big_endian zero n = []
big_endian (suc k) n = (n / 2 ^ (8 * k) % 256) ∷ big_endian k n

unfoldable pub bucket : Bytes → Bytes
unfolding tagged
bucket name = tagged bucket_tag name

-- objectPrefix, uploadByKeyPrefix and partPrefix differ in the tag.
unfoldable pub prefix_of : ℕ → Bytes → Bytes
prefix_of tag name = tag ∷ (name ++ (separator ∷ []))

unfoldable pub object_prefix : Bytes → Bytes
unfolding prefix_of
object_prefix bucket_name = prefix_of object_tag bucket_name

unfoldable pub object : Bytes → Bytes → Bytes
unfolding object_prefix
object bucket_name key = object_prefix bucket_name ++ key

unfoldable pub upload_by_key_prefix : Bytes → Bytes
unfolding prefix_of
upload_by_key_prefix bucket_name = prefix_of upload_by_key_tag bucket_name

unfoldable pub upload_by_key : Bytes → Bytes → Bytes → Bytes
unfolding upload_by_key_prefix
upload_by_key bucket_name key upload_id =
    upload_by_key_prefix bucket_name ++ (key ++ (separator ∷ upload_id))

unfoldable pub part_prefix : Bytes → Bytes
unfolding prefix_of
part_prefix upload_id = prefix_of part_tag upload_id

unfoldable pub part : Bytes → ℕ → Bytes
unfolding part_prefix big_endian
part upload_id part_number = part_prefix upload_id ++ big_endian 4 part_number

unfoldable pub audit : ℕ → Bytes
unfolding big_endian
audit sequence = audit_tag ∷ big_endian 8 sequence

-- The loop of auditSequence: `(value << 8) | byte` on 64 bits. partNumber's four shifts are the
-- same on 32 bits.
unfoldable pub big_endian_from : ℕ → ℕ → Bytes → ℕ
big_endian_from bits value [] = value
big_endian_from bits value (b ∷ bs) = big_endian_from bits (value * 256 % 2 ^ bits + b) bs

unfoldable pub audit_sequence : Bytes → Option ℕ
unfolding big_endian_from
audit_sequence [] = none
audit_sequence (tag ∷ rest) =
    if not (length rest == 8) || not (tag == audit_tag)
    then none
    else some (big_endian_from 64 0 rest)

-- The inner steps of upperBound, from the last byte: the carried result, or nothing where every
-- byte is 0xFF.
unfoldable pub bound_of : ℕ → Bytes → Option Bytes → Option Bytes
bound_of b bs (some rest) = some (b ∷ rest)
bound_of b bs none = if b == 255 then none else some ((b + 1) ∷ [])

unfoldable pub upper_bound : Bytes → Option Bytes
unfolding bound_of
upper_bound [] = none
upper_bound (b ∷ bs) = bound_of b bs (upper_bound bs)

-- `starts_with` and `substr`: what follows the prefix.
unfoldable pub after_prefix : Bytes → Bytes → Option Bytes
after_prefix [] s = some s
after_prefix (p ∷ ps) [] = none
after_prefix (p ∷ ps) (b ∷ s) = if p == b then after_prefix ps s else none

unfoldable pub object_key : Bytes → Bytes → Option Bytes
unfolding after_prefix object_prefix
object_key stored bucket_name = after_prefix (object_prefix bucket_name) stored

-- `rfind(kSeparator)`: what stands before the last separator and after it.
unfoldable pub split_step : ℕ → Bytes → Option (Bytes × Bytes) → Option (Bytes × Bytes)
split_step b bs (some (before, after)) = some (b ∷ before, after)
split_step b bs none = if b == separator then some ([], bs) else none

unfoldable pub split_last : Bytes → Option (Bytes × Bytes)
unfolding split_step
split_last [] = none
split_last (b ∷ bs) = split_step b bs (split_last bs)

unfoldable pub split_rest : Option Bytes → Option (Bytes × Bytes)
unfolding split_last
split_rest none = none
split_rest (some rest) = split_last rest

unfoldable pub upload_key_parts : Bytes → Bytes → Option (Bytes × Bytes)
unfolding after_prefix upload_by_key_prefix split_rest
upload_key_parts stored bucket_name =
    split_rest (after_prefix (upload_by_key_prefix bucket_name) stored)

unfoldable pub number_of : Option Bytes → Option ℕ
unfolding big_endian_from
number_of none = none
number_of (some encoded) = if length encoded == 4 then some (big_endian_from 32 0 encoded) else none

unfoldable pub part_number : Bytes → Bytes → Option ℕ
unfolding after_prefix part_prefix number_of
part_number stored upload_id = number_of (after_prefix (part_prefix upload_id) stored)
