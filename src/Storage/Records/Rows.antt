-- ===== src/Storage/Records/Rows.antt =====
-- backend/src/storage/rocksdb_metadata_store.cpp: the row of a bucket, as `encodeBucket` writes it and
-- `decodeBucket` reads it, and what reading one may throw.
pub mod Laws
use mono_bucket.Base.{
  ℕ, Bool, true, false, not, Option, none, some, List, [], ◌∷◌, ◌++◌, ltb, ◌==◌, if◌then◌else◌,
  String, Bytes, Result, ok, err, ◌>>=◌,
}
use mono_bucket.Storage.Codec.{
  Reader, DecodeError, put_varint, get_varint, put_string, get_string, put_boolean, get_boolean,
  put_u8, get_u8,
}
use mono_bucket.Storage.Records.{
  CorsRule, Durability, no_flush, relaxed, strict, BucketRecord, encode_cors_rules,
  decode_cors_rules,
}

-- A StorageError of `fail(StorageErrorCode::Corruption, ...)`, or a DecodeError.
pub data RowError : Type 0 where
  corrupt_row : RowError
  unreadable_row : DecodeError → RowError

-- kRecordVersion
abbrev pub record_version : ℕ
record_version = 1

unfoldable pub has_level : Option Durability → Bool
has_level none = false
has_level (some d) = true

unfoldable pub level_of : Option Durability → ℕ
level_of none = 1
level_of (some no_flush) = 0
level_of (some relaxed) = 1
level_of (some strict) = 2

unfoldable pub encode_row : BucketRecord → Bytes
unfolding has_level level_of
encode_row b =
    put_u8 record_version
    ++ (put_varint b.created_at
        ++ (put_boolean b.public_read
            ++ (put_string b.policy
                ++ (encode_cors_rules b.cors
                    ++ (put_boolean (has_level b.durability)
                        ++ (put_u8 (level_of b.durability)
                            ++ (put_varint b.quota_bytes ++ put_boolean b.public_list)))))))

-- A call of the reader.
unfoldable pub read : {A : Type 0} → Reader A → Bytes → Result RowError (A × Bytes)
read m bytes = elim (m bytes) [ ok found ↦ ok found | err e ↦ err (unreadable_row e) ]

-- A field that older rows do not have.
unfoldable pub read_added : {A : Type 0} → A → Reader A → Bytes → Result RowError (A × Bytes)
unfolding read
read_added absent m [] = ok (absent, [])
read_added absent m (c ∷ bytes) = read m (c ∷ bytes)

unfoldable pub durability_of : ℕ → Durability
durability_of level = if level == 0 then no_flush else if level == 1 then relaxed else strict

unfoldable pub checked_level : Bool → ℕ → Result RowError (Option Durability)
unfolding durability_of
checked_level false level = ok none
checked_level true level = if ltb 2 level then err corrupt_row else ok (some (durability_of level))

-- What follows the rules.
unfoldable pub added_fields : BucketRecord → Bytes → Result RowError BucketRecord
unfolding read read_added checked_level
added_fields b [] = ok b
added_fields b (c ∷ bytes) = read get_boolean (c ∷ bytes) >>= λ overridden.
    read get_u8 overridden.1 >>= λ level. checked_level overridden.0 level.0 >>= λ durability.
    read_added 0 get_varint level.1 >>= λ quota. read_added false get_boolean quota.1 >>= λ listed.
    ok (record b { public_list = listed.0; quota_bytes = quota.0; durability = durability })

abbrev pub row_fields : String → ℕ → Bool → Bytes → List CorsRule → BucketRecord
row_fields name created_at public_read policy cors = record {
  name = name;
  created_at = created_at;
  public_read = public_read;
  public_list = false;
  policy = policy;
  cors = cors;
  quota_bytes = 0;
  durability = none;
}

unfoldable pub decode_row : String → Bytes → Result RowError BucketRecord
unfolding read read_added added_fields
decode_row name stored = read get_u8 stored >>= λ version.
    if not (version.0 == record_version)
    then err corrupt_row
    else (read get_varint version.1 >>= λ created_at.
        read get_boolean created_at.1 >>= λ public_read. read get_string public_read.1 >>= λ policy.
        read_added [] decode_cors_rules policy.1 >>= λ cors.
        added_fields (row_fields name created_at.0 public_read.0 policy.0 cors.0) cors.1)
