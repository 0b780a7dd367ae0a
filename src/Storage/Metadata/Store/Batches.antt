-- ===== src/Storage/Metadata/Store/Batches.antt =====
-- backend/src/storage/rocksdb_metadata_store.cpp and metadata_store.hpp: the outcomes of the methods, the
-- counters, and the batches that the methods write.
use mono_bucket.Base.{
  ℕ, zero, suc, String, Bool, true, false, Option, none, some, List, [], ◌∷◌, ◌++◌, ltb,
  if◌then◌else◌, add64, sub64, Result, ok, err,
}
use mono_bucket.Storage.Errors.{StorageErrorCode}
use mono_bucket.Storage.Metadata.{
  WriteBatch, ObjectRecord, PartRecord, UploadRecord, put_object, delete_upload,
  delete_upload_by_key, put_part, delete_part, put_orphan, delete_orphan,
}

-- The five atomic counters.
pub record UsageStats : Type 0 where
  pub buckets : ℕ
  pub objects : ℕ
  pub bytes : ℕ
  pub uploads : ℕ
  pub orphan_blobs : ℕ

pub record PutOutcome : Type 0 where
  pub released_blob_id : Option String
  pub replaced_bytes : ℕ

pub record DeleteOutcome : Type 0 where
  pub existed : Bool
  pub released_blob_id : Option String
  pub released_bytes : ℕ

pub record AbortOutcome : Type 0 where
  pub bucket : String
  pub released_blob_ids : List String
  pub released_bytes : ℕ

pub record CompleteOutcome : Type 0 where
  pub released_blob_id : Option String
  pub replaced_bytes : ℕ
  pub released_part_blob_ids : List String
  pub released_part_bytes : ℕ

abbrev pub max_part_number : ℕ
max_part_number = 10000

-- `releasedBlobId` and `replacedBytes` of the object or part that a write replaces.
unfoldable pub replaced_object : Option ObjectRecord → PutOutcome
replaced_object none = record { released_blob_id = none; replaced_bytes = 0 }
replaced_object (some r) = record { released_blob_id = some r.blob_id; replaced_bytes = r.size }

unfoldable pub replaced_part : Option PartRecord → PutOutcome
replaced_part none = record { released_blob_id = none; replaced_bytes = 0 }
replaced_part (some r) = record { released_blob_id = some r.blob_id; replaced_bytes = r.size }

-- The marker of a payload that a write has released.
unfoldable pub released_marker : ℕ → Option String → WriteBatch
released_marker now none = []
released_marker now (some blob) = put_orphan blob now ∷ []

-- The counters of a put that replaces an object, or adds one.
unfoldable pub count_put : Option ObjectRecord → ObjectRecord → UsageStats → UsageStats
count_put none object u = record u {
  objects = add64 u.objects 1;
  bytes = add64 u.bytes object.size;
  orphan_blobs = sub64 u.orphan_blobs 1;
}
count_put (some previous) object u = record u {
  bytes = add64 (sub64 u.bytes previous.size) object.size;
  orphan_blobs = add64 (sub64 u.orphan_blobs 1) 1;
}

-- The rows of a released upload: each part goes and its payload is owed to the reclaimer.
unfoldable pub release_parts : String → ℕ → List PartRecord → WriteBatch
release_parts id now [] = []
release_parts id now (r ∷ parts) =
    delete_part id r.part_number ∷ put_orphan r.blob_id now ∷ release_parts id now parts

unfoldable pub released_bytes : List PartRecord → ℕ
released_bytes [] = 0
released_bytes (r ∷ parts) = add64 r.size (released_bytes parts)

unfoldable pub blobs_of : List PartRecord → List String
blobs_of [] = []
blobs_of (r ∷ parts) = r.blob_id ∷ blobs_of parts

-- An optional row, or the error of the method that needs it.
unfoldable pub or_fail {ℓ} : {A : Type ℓ} → StorageErrorCode → Option A → Result StorageErrorCode A
or_fail code none = err code
or_fail code (some a) = ok a

unfoldable pub has_any {ℓ} : {A : Type ℓ} → List A → Bool
has_any [] = false
has_any (x ∷ xs) = true

-- The batch of `forgetOrphans`.
unfoldable pub forget_batch : List String → WriteBatch
forget_batch [] = []
forget_batch (blob ∷ blobs) = delete_orphan blob ∷ forget_batch blobs

-- The markers queued at or before the cutoff, up to the limit.
unfoldable pub aged : ℕ → ℕ → List (String × ℕ) → List String
aged zero cutoff rows = []
aged (suc limit) cutoff [] = []
aged (suc limit) cutoff ((blob, queued_at) ∷ rows) =
    let kept = blob ∷ aged limit cutoff rows in
    let passed = aged (suc limit) cutoff rows in if ltb cutoff queued_at then passed else kept

unfoldable pub put_batch : String → ObjectRecord → ℕ → Option String → WriteBatch
unfolding released_marker
put_batch bucket object now released =
    put_object bucket object.key object
    ∷ delete_orphan object.blob_id
    ∷ released_marker now released

abbrev pub nothing_deleted : DeleteOutcome
nothing_deleted = record { existed = false; released_blob_id = none; released_bytes = 0 }

unfoldable pub part_batch : String → PartRecord → ℕ → Option String → WriteBatch
unfolding released_marker
part_batch id part now released =
    put_part id part ∷ delete_orphan part.blob_id ∷ released_marker now released

-- The rows of an upload that is over.
unfoldable pub end_upload : UploadRecord → ℕ → List PartRecord → WriteBatch
unfolding release_parts
end_upload u now parts =
    release_parts u.upload_id now parts
    ++ (delete_upload u.upload_id ∷ delete_upload_by_key u.bucket u.key u.upload_id ∷ [])
