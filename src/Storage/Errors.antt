-- ===== src/Storage/Errors.antt =====
-- backend/src/storage/metadata_store.hpp: the codes of a `StorageError`.
pub data StorageErrorCode : Type 0 where
  no_such_bucket no_such_key no_such_upload bucket_already_exists bucket_not_empty :
      StorageErrorCode
  invalid_part quota_exceeded quota_below_usage insufficient_capacity : StorageErrorCode
  object_too_large checksum_mismatch corruption io internal : StorageErrorCode
