-- ===== src/Storage/Engine.antt =====
-- backend/src/storage/storage_engine.cpp and blob_store.cpp: payload files beside metadata rows. The
-- payload tree and the temporaries are dictionaries by blob id; a failing system call is left out.
-- What is logged is left out too.
pub mod Uploads
pub mod Multipart
pub mod Buckets
pub mod Whole
mod Tests
use mono_bucket.Base.{
  ℕ, ◌+◌, ◌-◌, ◌==◌, String, Bool, true, false, not, ◌||◌, Option, none, some, List, [], ◌∷◌, ◌++◌,
  ltb, if◌then◌else◌, Bytes, length, Result, ok, err, Dict, lookup, insert, erase,
}
use mono_bucket.Storage.Errors.{
  StorageErrorCode, no_such_bucket, no_such_key, object_too_large, io, internal,
}
use mono_bucket.Storage.Records.{ContentHeaders, BucketRecord, are_storable_header_values}
use mono_bucket.Storage.Quota.{
  QuotaLedger, Reservation, extend, release, record_object, record_deletion,
}
use mono_bucket.Storage.Metadata.{Database, Checksum, ChecksumAlgorithm, ObjectRecord}
use mono_bucket.Storage.Metadata.Store.{
  Store, PutOutcome, DeleteOutcome, store_object, get_object, drop_object, track_blob, list_orphans,
  forget_orphans,
}

abbrev pub max_key_length : ℕ
max_key_length = 1024

-- The digests that the engine calls (storage/digest.hpp, storage/checksum.hpp).
pub record Digests : Type 0 where
  pub md5 : Bytes → Bytes
  pub sha256 : Bytes → Bytes
  pub multipart_etag : List Bytes → Bytes
  pub composite_checksum : ChecksumAlgorithm → List Bytes → Checksum

pub record PutRequest : Type 0 where
  pub bucket : String
  pub key : Bytes
  pub content_type : Bytes
  pub user_metadata : List (Bytes × Bytes)
  pub content : ContentHeaders
  pub checksum : Checksum

-- BlobWriter::Committed
pub record Committed : Type 0 where
  pub blob_id : String
  pub size : ℕ
  pub md5 : Bytes
  pub sha256 : Bytes

unfoldable pub remove_files : List String → Dict Bytes → Dict Bytes
remove_files [] files = files
remove_files (blob ∷ blobs) files = remove_files blobs (erase blob files)

unfoldable pub object_of : PutRequest → Committed → ℕ → ObjectRecord
object_of q c now = record {
  key = q.key;
  blob_id = c.blob_id;
  size = c.size;
  etag = c.md5;
  sha256 = c.sha256;
  content_type = q.content_type;
  last_modified = now;
  user_metadata = q.user_metadata;
  content = q.content;
  checksum = q.checksum;
}

-- BlobStore::open, of the payload of an object.
unfoldable pub with_payload :
    ObjectRecord → Option Bytes → Result StorageErrorCode (Option (ObjectRecord × Bytes))
with_payload object none = err no_such_key
with_payload object (some content) = ok (some (object, content))

module _ (D : Database) (H : Digests) where
  -- `files` is the payload tree, `writers` the temporaries of the writers that are open.
  pub record Engine : Type 0 where
    pub store : Store D
    pub files : Dict Bytes
    pub writers : Dict Bytes
    pub quotas : QuotaLedger
    pub checkpointing : Bool
    pub max_upload_bytes : ℕ

  -- A method that may throw; what it wrote before stays written.
  abbrev pub Thrown {ℓ} : Type ℓ → Type ℓ
  Thrown A = Result StorageErrorCode A × Engine

  -- Payloads

  -- BlobStore::create, and the marker that beginWrite adds.
  unfoldable pub begin_write : String → ℕ → Engine → Thrown String
  begin_write blob now e = elim (lookup blob e.writers) [
    | some taken ↦ (err io, e)
    | none ↦ (
      ok blob,
      record e { writers = insert blob [] e.writers; store = track_blob D blob now e.store },
    )
  ]

  -- BlobWriter::write
  unfoldable pub write_bytes : String → Bytes → Engine → Thrown (Unit {0})
  write_bytes blob bytes e = elim (lookup blob e.writers) [
    | none ↦ (err internal, e)
    | some written ↦ (ok tt, record e { writers = insert blob (written ++ bytes) e.writers })
  ]

  -- BlobWriter::abort, and the destructor.
  unfoldable pub drop_writer : String → Engine → Engine
  drop_writer blob e = record e { writers = erase blob e.writers }

  -- BlobWriter::commit: the temporary becomes the payload.
  unfoldable pub commit : String → Engine → Thrown Committed
  commit blob e = elim (lookup blob e.writers) [
    | none ↦ (err internal, e)
    | some written ↦ (
      ok (record {
        blob_id = blob;
        size = length written;
        md5 = H.md5 written;
        sha256 = H.sha256 written;
      }),
      record e { writers = erase blob e.writers; files = insert blob written e.files },
    )
  ]

  unfoldable pub written_bytes : String → Engine → ℕ
  written_bytes blob e = elim (lookup blob e.writers) [ none ↦ 0 | some written ↦ length written ]

  -- Reclamation

  -- The loop over `blobs_.remove`, and forgetOrphans after it.
  unfoldable pub unlink_all : List String → Engine → Engine
  unfolding remove_files
  unlink_all blobs e = record e {
    files = remove_files blobs e.files;
    store = forget_orphans D blobs e.store;
  }

  unfoldable pub reclaim_now : List String → Engine → Engine
  unfolding unlink_all
  reclaim_now blobs e = if e.checkpointing then e else unlink_all blobs e

  unfoldable pub reclaim_released : Option String → Engine → Engine
  unfolding reclaim_now
  reclaim_released none e = e
  reclaim_released (some blob) e = reclaim_now (blob ∷ []) e

  unfoldable pub reclaim_older_than : ℕ → ℕ → Engine → ℕ × Engine
  unfolding unlink_all
  reclaim_older_than limit cutoff e =
      let blobs = list_orphans D limit cutoff e.store in
      if e.checkpointing then (0, e) else (length blobs, unlink_all blobs e)

  -- Objects

  -- A throw destroys the writer and the reservation.
  unfoldable pub abandon_write : String → Reservation → Engine → Engine
  unfolding drop_writer
  abandon_write blob r e = record (drop_writer blob e) { quotas = (release r e.quotas).1 }

  -- finishWrite from the metadata commit on.
  unfoldable pub settle_write :
      PutRequest → ObjectRecord → Reservation → ℕ → Engine → Thrown ObjectRecord
  unfolding reclaim_released
  settle_write q object r now e = elim (store_object D q.bucket object now e.store) [
    | err code ↦ (err code, record e { quotas = (release r e.quotas).1 })
    | ok (outcome, s) ↦ (
      ok object,
      reclaim_released (outcome.released_blob_id) (record e {
        store = s;
        quotas = record_object q.bucket r object.size outcome.replaced_bytes e.quotas;
      }),
    )
  ]

  -- finishWrite from the extension of the claim on.
  unfoldable pub publish_write :
      PutRequest → Committed → Reservation → ℕ → Engine → Thrown ObjectRecord
  unfolding settle_write object_of
  publish_write q c r now e =
      let extended = extend r q.bucket c.size e.quotas in
      elim (extended.0) [
        | err code ↦ (err code, record e { quotas = (release r extended.1).1 })
        | ok claim ↦ settle_write q (object_of q c now) claim now (record e { quotas = extended.1 })
      ]

  unfoldable pub publish_committed :
      PutRequest → String → Reservation → ℕ → Thrown Committed → Thrown ObjectRecord
  unfolding publish_write abandon_write
  publish_committed q blob r now (err code, e) = (err code, abandon_write blob r e)
  publish_committed q blob r now (ok c, e) = publish_write q c r now e

  unfoldable pub finish_write : PutRequest → String → Reservation → ℕ → Engine → Thrown ObjectRecord
  unfolding publish_committed commit abandon_write written_bytes
  finish_write q blob r now e =
      if (length q.key == 0) || ltb max_key_length (length q.key)
      then (err internal, abandon_write blob r e)
      else if not (are_storable_header_values q.content)
      then (err internal, abandon_write blob r e)
      else if ltb e.max_upload_bytes (written_bytes blob e)
      then (err object_too_large, abandon_write blob r e)
      else publish_committed q blob r now (commit blob e)

  -- getObject: the record with the payload that is opened, or nothing.
  unfoldable pub read_object :
      String → Bytes → Engine → Result StorageErrorCode (Option (ObjectRecord × Bytes))
  unfolding with_payload
  read_object bucket key e = elim (get_object D bucket key e.store) [
    | none ↦ ok none
    | some object ↦ with_payload object (lookup object.blob_id e.files)
  ]

  unfoldable pub remove_object : String → Bytes → ℕ → Engine → Thrown Bool
  unfolding reclaim_released
  remove_object bucket key now e = elim (drop_object D bucket key now e.store) [
    | err code ↦ (err code, e)
    | ok (outcome, s) ↦ (
      ok outcome.existed,
      reclaim_released (outcome.released_blob_id)
          (record e { store = s; quotas = record_deletion bucket outcome.released_bytes e.quotas }),
    )
  ]
