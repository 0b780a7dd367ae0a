-- ===== src/Storage/Records/Rows/Laws.antt =====
-- backend/src/storage/rocksdb_metadata_store.cpp: the row of a bucket is read back as the record, and
-- cannot be read where its rules cannot.
use mono_bucket.Base.{
  ℕ, zero, suc, ◌<◌, ◌≡◌, refl, ◌∙◌, Option, none, some, List, [], ◌++◌, append_assoc, inl, inr,
  Bool-cases, String, Bytes, length, word64, ok, err, ◌>>=◌, ltb,
}
use mono_bucket.Storage.Codec.{
  Reader, DecodeError, put_varint, get_varint, varint_from, put_string, get_string, put_boolean,
  get_boolean, put_u8, get_u8, put_many,
}
use mono_bucket.Storage.Codec.RoundTrip.{Reads, Reads-varint, Reads-boolean, Reads-string, Reads-u8}
use mono_bucket.Storage.Records.{
  CorsRule, Durability, no_flush, relaxed, strict, BucketRecord, encode_cors_rules,
  decode_cors_rules, put_cors_rule,
}
use mono_bucket.Storage.Records.RoundTrip.{IsText, IsRules, decode-encode_cors_rules}
use mono_bucket.Storage.Records.Rows.{
  unreadable_row, record_version, has_level, level_of, encode_row, read, read_added, checked_level,
  durability_of, added_fields, row_fields, decode_row,
}

-- A record that the wire form can hold.
pub record IsStorable (r : BucketRecord) : Type 0 where
  pub created_at : r.created_at < word64
  pub policy : IsText r.policy
  pub cors : IsRules r.cors
  pub quota : r.quota_bytes < word64

module _ {A : Type 0} where
  read-Reads :
      (m : Reader A) (bytes rest : Bytes) (a : A)
      → Reads m bytes a
      → read m (bytes ++ rest) ≡ ok (a, rest)
  unfolding read
  read-Reads m bytes rest a r = rw (read, r.at rest) refl

  -- A field that begins with a number is there.
  read_added-varint :
      (absent : A) (m : Reader A) (n : ℕ) (bytes : Bytes)
      → read_added absent m (put_varint n ++ bytes) ≡ read m (put_varint n ++ bytes)
  unfolding put_varint read_added varint_from
  read_added-varint absent m n bytes = go n n
    where
      go :
          (fuel v : ℕ)
          → read_added absent m (varint_from fuel v ++ bytes) ≡ read m (varint_from fuel v ++ bytes)
      go zero v = refl
      go (suc fuel) v = elim (Bool-cases (ltb v 128)) [
        | inl t ↦ rw (varint_from, t) refl
        | inr f ↦ rw (varint_from, f) refl
      ]

-- The fields after the rules.
abbrev pub fields_after : BucketRecord → Bytes
fields_after b =
    put_boolean (has_level b.durability)
    ++ (put_u8 (level_of b.durability) ++ (put_varint b.quota_bytes ++ put_boolean b.public_list))

level_read : (d : Option Durability) → checked_level (has_level d) (level_of d) ≡ ok d
unfolding checked_level has_level level_of durability_of
level_read none = refl
level_read (some no_flush) = refl
level_read (some relaxed) = refl
level_read (some strict) = refl

added_fields-fields_after :
    (b r : BucketRecord)
    → r.quota_bytes < word64
    → added_fields b (fields_after r)
      ≡ ok (record b {
        public_list = r.public_list;
        quota_bytes = r.quota_bytes;
        durability = r.durability;
      })
unfolding added_fields read_added put_boolean put_u8
added_fields-fields_after b r h =
    let level = level_of r.durability in
    let quota = put_varint r.quota_bytes ++ put_boolean r.public_list in
    rw
      (
        added_fields,
        read-Reads get_boolean (put_boolean (has_level r.durability)) (put_u8 level ++ quota)
            (has_level r.durability) (Reads-boolean (has_level r.durability)),
        read-Reads get_u8 (put_u8 level) quota level (Reads-u8 level),
        level_read r.durability,
        read_added-varint 0 get_varint r.quota_bytes (put_boolean r.public_list),
        read-Reads get_varint (put_varint r.quota_bytes) (put_boolean r.public_list) r.quota_bytes
            (Reads-varint r.quota_bytes h),
        read-Reads get_boolean (put_boolean r.public_list) [] r.public_list
            (Reads-boolean r.public_list),
      )
      refl

added_rules :
    (rules : List CorsRule) (bytes : Bytes)
    → read_added [] decode_cors_rules (encode_cors_rules rules ++ bytes)
      ≡ read decode_cors_rules (encode_cors_rules rules ++ bytes)
unfolding encode_cors_rules
added_rules rules bytes =
    rw append_assoc (
      read_added-varint [] decode_cors_rules (length rules) (put_many put_cors_rule rules ++ bytes))

decode_row-rules :
    (name : String) (b : BucketRecord)
    → b.created_at < word64
    → IsText b.policy
    → decode_row name (encode_row b) ≡ (
        read decode_cors_rules (encode_cors_rules b.cors ++ fields_after b) >>= λ cors.
        added_fields (row_fields name b.created_at b.public_read b.policy cors.0) cors.1)
unfolding encode_row decode_row read
decode_row-rules name b small text =
    let rules = encode_cors_rules b.cors ++ fields_after b in
    let policy = put_string b.policy ++ rules in
    let public_read = put_boolean b.public_read ++ policy in
    let created_at = put_varint b.created_at ++ public_read in
    rw
      (
        decode_row,
        read-Reads get_u8 (put_u8 record_version) created_at record_version
            (Reads-u8 record_version),
        read-Reads get_varint (put_varint b.created_at) public_read b.created_at
            (Reads-varint b.created_at small),
        read-Reads get_boolean (put_boolean b.public_read) policy b.public_read
            (Reads-boolean b.public_read),
        read-Reads get_string (put_string b.policy) rules b.policy (Reads-string b.policy text),
        added_rules b.cors (fields_after b),
      )
      refl

-- A storable record is read back from its row, under the name it was looked up by.
pub decode_row-encode_row :
    (name : String) (b : BucketRecord)
    → IsStorable b
    → decode_row name (encode_row b) ≡ ok (record b { name = name })
decode_row-encode_row name b h =
    decode_row-rules name b h.created_at h.policy
    ∙ rw
        (read-Reads decode_cors_rules (encode_cors_rules b.cors) (fields_after b) b.cors
          (decode-encode_cors_rules b.cors h.cors))
        (added_fields-fields_after (row_fields name b.created_at b.public_read b.policy b.cors) b
          h.quota)

-- Where the rules cannot be read, neither can the row.
pub decode_row-unreadable :
    (name : String) (b : BucketRecord) (e : DecodeError)
    → b.created_at < word64
    → IsText b.policy
    → decode_cors_rules (encode_cors_rules b.cors ++ fields_after b) ≡ err e
    → decode_row name (encode_row b) ≡ err (unreadable_row e)
unfolding read
decode_row-unreadable name b e small text h = decode_row-rules name b small text ∙ rw (read, h) refl
