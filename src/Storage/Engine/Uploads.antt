-- ===== src/Storage/Engine/Uploads.antt =====
-- backend/src/storage/storage_engine.cpp: multipart uploads.
pub mod Manifest
use mono_bucket.Base.{
  ℕ, zero, suc, ◌+◌, ◌-◌, ◌*◌, ◌==◌, String, Bool, true, false, not, ◌||◌, ◌&&◌, Option, none, some,
  List, [], ◌∷◌, ◌++◌, ltb, leb, if◌then◌else◌, Bytes, bytes_eq, length, add64, Result, ok, err,
  Dict, lookup, insert, erase, map,
}
use mono_bucket.Storage.Errors.{
  StorageErrorCode, no_such_upload, no_such_key, invalid_part, object_too_large, internal,
  checksum_mismatch,
}
use mono_bucket.Storage.Records.{are_storable_header_values}
use mono_bucket.Storage.Quota.{
  QuotaLedger, Reservation, extend, release, record_part, record_upload_aborted,
  record_upload_completed,
}
use mono_bucket.Storage.Metadata.{
  Database, Checksum, ChecksumAlgorithm, crc32, crc32c, crc64_nvme, sha1, sha256, ObjectRecord,
  PartRecord, UploadRecord,
}
use mono_bucket.Storage.Metadata.Store.{
  Store, create_upload, get_upload, store_part, list_parts, abort_upload, complete_upload,
}
use mono_bucket.Storage.Engine.{
  Engine, Digests, PutRequest, Committed, Thrown, begin_write, write_bytes, drop_writer, commit,
  written_bytes, reclaim_now, reclaim_released, abandon_write,
}

abbrev pub min_part_size : ℕ
min_part_size = 5 * 1024 * 1024

pub record RequestedPart : Type 0 where
  pub part_number : ℕ
  pub etag : Bytes

unfoldable pub drop_last_quote : Bytes → Option Bytes
drop_last_quote [] = none
drop_last_quote (c ∷ []) = if c == b'"' then some [] else none
drop_last_quote (c ∷ d ∷ text) = elim (drop_last_quote (d ∷ text)) [
  | none ↦ none
  | some rest ↦ some (c ∷ rest)
]

unfoldable pub unquote : Bytes → Bytes
unfolding drop_last_quote
unquote [] = []
unquote (c ∷ text) =
    if c == b'"'
    then elim (drop_last_quote text) [ none ↦ c ∷ text | some inner ↦ inner ]
    else c ∷ text

-- The checks of the manifest

unfoldable pub stored_part : ℕ → List PartRecord → Option PartRecord
stored_part number [] = none
stored_part number (r ∷ parts) =
    let rest = stored_part number parts in if r.part_number == number then some r else rest

unfoldable pub order_parts :
    ℕ → List RequestedPart → List PartRecord → Result StorageErrorCode (List PartRecord)
unfolding stored_part unquote
order_parts previous [] stored = ok []
order_parts previous (want ∷ wanted) stored =
    let rest = order_parts want.part_number wanted stored in
    if leb want.part_number previous
    then err invalid_part
    else elim (stored_part want.part_number stored) [
      | none ↦ err invalid_part
      | some found ↦
          if not (bytes_eq (unquote want.etag) found.etag)
          then err invalid_part
          else elim rest [ err code ↦ err code | ok parts ↦ ok (found ∷ parts) ]
    ]

-- Every part but the last reaches the minimum.
unfoldable pub are_large_enough : List PartRecord → Bool
are_large_enough [] = true
are_large_enough (r ∷ []) = true
are_large_enough (r ∷ s ∷ parts) = not (ltb r.size min_part_size) && are_large_enough (s ∷ parts)

unfoldable pub assembled_from : ℕ → List PartRecord → ℕ
assembled_from total [] = total
assembled_from total (r ∷ parts) = assembled_from (add64 total r.size) parts

-- uploadedPartBytes
unfoldable pub part_bytes_from : ℕ → ℕ → List PartRecord → ℕ
part_bytes_from total except [] = total
part_bytes_from total except (r ∷ parts) =
    part_bytes_from (if r.part_number == except then total else add64 total r.size) except parts

unfoldable pub same_algorithm : ChecksumAlgorithm → ChecksumAlgorithm → Bool
same_algorithm crc32 crc32 = true
same_algorithm crc32c crc32c = true
same_algorithm crc64_nvme crc64_nvme = true
same_algorithm sha1 sha1 = true
same_algorithm sha256 sha256 = true
same_algorithm _ _ = false

unfoldable pub agrees : Option ChecksumAlgorithm → Option ChecksumAlgorithm → Bool
unfolding same_algorithm
agrees none none = true
agrees (some a) (some b) = same_algorithm a b
agrees _ _ = false

-- Checksum::present, with the algorithm
unfoldable pub present : Checksum → Option ChecksumAlgorithm
present c = elim (c.value) [ [] ↦ none | x ∷ xs ↦ c.algorithm ]

unfoldable pub or_else :
    Option ChecksumAlgorithm → Option ChecksumAlgorithm → Option ChecksumAlgorithm
or_else none b = b
or_else (some a) b = some a

unfoldable pub algorithm_from :
    Option ChecksumAlgorithm → List PartRecord → Option ChecksumAlgorithm
unfolding present or_else agrees
algorithm_from chosen [] = chosen
algorithm_from chosen (r ∷ parts) =
    let next = or_else chosen (present r.checksum) in
    let rest = algorithm_from next parts in
    elim (present r.checksum) [ none ↦ none | some a ↦ if agrees (some a) next then rest else none ]

unfoldable pub composite_algorithm : UploadRecord → List PartRecord → Option ChecksumAlgorithm
unfolding algorithm_from
composite_algorithm u parts = algorithm_from u.checksum_algorithm parts

abbrev pub no_checksum : Checksum
no_checksum = record { algorithm = none; value = []; parts = 0 }

unfoldable pub check_expected : Checksum → Checksum → Result StorageErrorCode (Unit {0})
unfolding present agrees
check_expected expected composite = elim (present expected) [
  | none ↦ ok tt
  | some a ↦ elim (present composite) [
    | none ↦ err checksum_mismatch
    | some b ↦
        if not (same_algorithm a b)
        then err checksum_mismatch
        else if not (bytes_eq expected.value composite.value)
            || not (expected.parts == composite.parts)
        then err checksum_mismatch
        else ok tt
  ]
]

unfoldable pub part_of : ℕ → Committed → Checksum → ℕ → PartRecord
part_of number c checksum now = record {
  part_number = number;
  blob_id = c.blob_id;
  size = c.size;
  etag = c.md5;
  uploaded_at = now;
  checksum = checksum;
}

unfoldable pub assembled_object : UploadRecord → Committed → Bytes → Checksum → ℕ → ObjectRecord
assembled_object u c etag composite now = record {
  key = u.key;
  blob_id = c.blob_id;
  size = c.size;
  etag = etag;
  sha256 = c.sha256;
  content_type = u.content_type;
  last_modified = now;
  user_metadata = u.user_metadata;
  content = u.content;
  checksum = composite;
}

unfoldable pub etags_of : List PartRecord → List Bytes
etags_of [] = []
etags_of (r ∷ parts) = r.etag ∷ etags_of parts

unfoldable pub checksums_of : List PartRecord → List Bytes
checksums_of [] = []
checksums_of (r ∷ parts) = r.checksum.value ∷ checksums_of parts
