-- ===== src/Storage/Engine/Multipart.antt =====
-- backend/src/storage/storage_engine.cpp: the methods of multipart uploads.
use mono_bucket.Base.{
  ℕ, String, not, none, some, List, [], ◌∷◌, ltb, if◌then◌else◌, Bytes, add64, Result, ok, err,
  ◌>>=◌, lookup,
}
use mono_bucket.Storage.Errors.{
  StorageErrorCode, no_such_upload, no_such_key, invalid_part, object_too_large, internal,
}
use mono_bucket.Storage.Records.{are_storable_header_values}
use mono_bucket.Storage.Quota.{
  Reservation, extend, release, record_part, record_upload_aborted, record_upload_completed,
}
use mono_bucket.Storage.Metadata.{Database, Checksum, PartRecord, ObjectRecord, UploadRecord}
use mono_bucket.Storage.Metadata.Store.{
  create_upload, get_upload, store_part, list_parts, abort_upload, complete_upload,
}
use mono_bucket.Storage.Engine.{
  Engine, Digests, PutRequest, Committed, Thrown, begin_write, write_bytes, drop_writer, commit,
  written_bytes, reclaim_now, reclaim_released, abandon_write,
}
use mono_bucket.Storage.Engine.Uploads.{
  RequestedPart, order_parts, are_large_enough, assembled_from, part_bytes_from,
  composite_algorithm, check_expected, no_checksum, part_of, assembled_object, etags_of,
  checksums_of,
}

unfoldable pub upload_of : String → PutRequest → ℕ → UploadRecord
upload_of id q now = record {
  upload_id = id;
  bucket = q.bucket;
  key = q.key;
  content_type = q.content_type;
  created_at = now;
  user_metadata = q.user_metadata;
  content = q.content;
  checksum_algorithm = q.checksum.algorithm;
}

module _ (D : Database) (H : Digests) where
  -- StorageEngine::createUpload; the id is random.
  unfoldable pub begin_upload : String → PutRequest → ℕ → Engine D H → Thrown D H String
  unfolding upload_of
  begin_upload id q now e =
      if not (are_storable_header_values q.content)
      then (err internal, e)
      else elim (create_upload D (upload_of id q now) e.store) [
        | err code ↦ (err code, e)
        | ok (done, s) ↦ (ok id, record e { store = s })
      ]

  unfoldable pub uploaded_part_bytes : String → ℕ → Engine D H → Result StorageErrorCode ℕ
  unfolding part_bytes_from
  uploaded_part_bytes id except e =
      list_parts D id e.store >>= λ parts. ok (part_bytes_from 0 except parts)

  -- finishPart from the metadata commit on.
  unfoldable pub settle_part :
      UploadRecord → String → PartRecord → Reservation → ℕ → Engine D H → Thrown D H PartRecord
  settle_part u id part r now e = elim (store_part D id part now e.store) [
    | err code ↦ (err code, record e { quotas = (release r e.quotas).1 })
    | ok (outcome, s) ↦ (
      ok part,
      reclaim_released D H (outcome.released_blob_id) (record e {
        store = s;
        quotas = record_part u.bucket r part.size outcome.replaced_bytes e.quotas;
      }),
    )
  ]

  -- finishPart from the extension of the claim on.
  unfoldable pub claim_part :
      UploadRecord → String → PartRecord → Reservation → ℕ → Engine D H → Thrown D H PartRecord
  unfolding settle_part
  claim_part u id part r now e =
      let extended = extend r u.bucket part.size e.quotas in
      elim (extended.0) [
        | err code ↦ (err code, record e { quotas = (release r extended.1).1 })
        | ok claim ↦ settle_part u id part claim now (record e { quotas = extended.1 })
      ]

  unfoldable pub part_committed :
      UploadRecord
      → String
      → ℕ
      → String
      → Reservation
      → Checksum
      → ℕ
      → Thrown D H Committed
      → Thrown D H PartRecord
  unfolding claim_part part_of
  part_committed u id number blob r checksum now (err code, e) =
      (err code, abandon_write D H blob r e)
  part_committed u id number blob r checksum now (ok c, e) =
      claim_part u id (part_of number c checksum now) r now e

  unfoldable pub finish_part :
      String → ℕ → String → Reservation → Checksum → ℕ → Engine D H → Thrown D H PartRecord
  unfolding uploaded_part_bytes part_committed
  finish_part id number blob r checksum now e = elim (get_upload D id e.store) [
    | none ↦ (err no_such_upload, abandon_write D H blob r e)
    | some u ↦ elim (uploaded_part_bytes id number e) [
      | err code ↦ (err code, abandon_write D H blob r e)
      | ok others ↦
          if ltb e.max_upload_bytes (add64 others (written_bytes D H blob e))
          then (err object_too_large, abandon_write D H blob r e)
          else part_committed u id number blob r checksum now (commit D H blob e)
    ]
  ]

  -- StorageEngine::abortUpload
  unfoldable pub discard_upload : String → ℕ → Engine D H → Thrown D H (Unit {0})
  discard_upload id now e = elim (abort_upload D id now e.store) [
    | err code ↦ (err code, e)
    | ok (outcome, s) ↦ (
      ok tt,
      reclaim_now D H (outcome.released_blob_ids) (record e {
        store = s;
        quotas = record_upload_aborted outcome.bucket outcome.released_bytes e.quotas;
      }),
    )
  ]

  unfoldable pub composite_of : UploadRecord → List PartRecord → Checksum
  unfolding composite_algorithm checksums_of
  composite_of u ordered = elim (composite_algorithm u ordered) [
    | none ↦ no_checksum
    | some a ↦ H.composite_checksum a (checksums_of ordered)
  ]

  -- The checks of completeUpload, which answer the ordered parts and the composite checksum.
  unfoldable pub check_parts :
      ℕ
      → UploadRecord
      → List RequestedPart
      → Checksum
      → List PartRecord
      → Result StorageErrorCode (List PartRecord × Checksum)
  unfolding order_parts are_large_enough assembled_from composite_of check_expected
  check_parts limit u [] expected stored = err invalid_part
  check_parts limit u (want ∷ wanted) expected stored =
      order_parts 0 (want ∷ wanted) stored >>= λ ordered.
      if not (are_large_enough ordered)
      then err invalid_part
      else if ltb limit (assembled_from 0 ordered)
      then err object_too_large
      else check_expected expected (composite_of u ordered) >>= λ agreed.
          ok (ordered, composite_of u ordered)

  -- The loop of appendBlob.
  unfoldable pub append_parts : String → List PartRecord → Engine D H → Thrown D H (Unit {0})
  append_parts blob [] e = (ok tt, e)
  append_parts blob (r ∷ parts) e = elim (lookup r.blob_id e.files) [
    | none ↦ (err no_such_key, e)
    | some content ↦
        let appended = write_bytes D H blob content e in
        elim (appended.0) [
          | err code ↦ (err code, appended.1)
          | ok done ↦ append_parts blob parts (appended.1)
        ]
  ]

  -- completeUpload from the metadata commit on.
  unfoldable pub settle_upload :
      UploadRecord → String → ObjectRecord → ℕ → Engine D H → Thrown D H ObjectRecord
  settle_upload u id object now e = elim (complete_upload D u.bucket id object now e.store) [
    | err code ↦ (err code, e)
    | ok (outcome, s) ↦ (
      ok object,
      reclaim_now D H (outcome.released_part_blob_ids) (
          reclaim_released D H (outcome.released_blob_id) (record e {
            store = s;
            quotas =
                record_upload_completed u.bucket object.size outcome.replaced_bytes
                  outcome.released_part_bytes e.quotas;
          })),
    )
  ]

  unfoldable pub upload_committed :
      UploadRecord
      → String
      → String
      → Bytes
      → Checksum
      → ℕ
      → Thrown D H Committed
      → Thrown D H ObjectRecord
  unfolding settle_upload assembled_object
  upload_committed u id blob etag composite now (err code, e) = (err code, drop_writer D H blob e)
  upload_committed u id blob etag composite now (ok c, e) =
      settle_upload u id (assembled_object u c etag composite now) now e

  unfoldable pub parts_appended :
      UploadRecord
      → String
      → String
      → Bytes
      → Checksum
      → ℕ
      → Thrown D H (Unit {0})
      → Thrown D H ObjectRecord
  unfolding upload_committed
  parts_appended u id blob etag composite now (err code, e) = (err code, drop_writer D H blob e)
  parts_appended u id blob etag composite now (ok done, e) =
      upload_committed u id blob etag composite now (commit D H blob e)

  -- completeUpload from beginWrite on; the new payload's id is random.
  unfoldable pub assemble :
      UploadRecord
      → String
      → String
      → List PartRecord
      → Checksum
      → ℕ
      → Thrown D H String
      → Thrown D H ObjectRecord
  unfolding append_parts parts_appended etags_of
  assemble u id blob ordered composite now (err code, e) = (err code, e)
  assemble u id blob ordered composite now (ok opened, e) =
      parts_appended u id blob (H.multipart_etag (etags_of ordered)) composite now
        (append_parts blob ordered e)

  -- StorageEngine::completeUpload
  unfoldable pub finish_upload :
      String → String → List RequestedPart → Checksum → ℕ → Engine D H → Thrown D H ObjectRecord
  unfolding check_parts assemble
  finish_upload id blob requested expected now e = elim (get_upload D id e.store) [
    | none ↦ (err no_such_upload, e)
    | some u ↦
        elim (list_parts D id e.store >>= check_parts e.max_upload_bytes u requested expected) [
          | err code ↦ (err code, e)
          | ok (ordered, composite) ↦
              assemble u id blob ordered composite now (begin_write D H blob now e)
        ]
  ]
