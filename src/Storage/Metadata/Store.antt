-- ===== src/Storage/Metadata/Store.antt =====
-- backend/src/storage/rocksdb_metadata_store.cpp: buckets, objects, uploads, parts and orphans. A method
-- holds its locks for the whole call and is one atomic step; the statuses of a failing database are
-- left out, and the durability of a write changes nothing that a reader sees.
mod Batches
unfoldable pub use Batches.*
use mono_bucket.Base.{
  ℕ, zero, suc, ◌+◌, ◌-◌, ◌==◌, String, Bool, true, false, ◌||◌, Option, none, some, List, [], ◌∷◌,
  ◌++◌, map, ltb, leb, if◌then◌else◌, Bytes, add64, sub64, word64, length, Result, ok, err, ◌>>=◌,
}
use mono_bucket.Storage.Errors.{
  StorageErrorCode, no_such_bucket, no_such_upload, bucket_already_exists, bucket_not_empty,
  invalid_part,
}
use mono_bucket.Storage.Records.{BucketRecord}
use mono_bucket.Storage.Metadata.{
  Database, WriteBatch, Change, ObjectRecord, PartRecord, UploadRecord, put_bucket, delete_bucket,
  put_object, delete_object, put_upload, delete_upload, put_upload_by_key, delete_upload_by_key,
  put_part, delete_part, put_orphan, delete_orphan,
}

module _ (D : Database) where
  pub record Store : Type 0 where
    pub rows : D.State
    pub usage : UsageStats

  abbrev Outcome {ℓ} : Type ℓ → Type ℓ
  Outcome A = Result StorageErrorCode (A × Store)

  -- Buckets

  unfoldable pub create_bucket : BucketRecord → Store → Outcome (Unit {0})
  create_bucket r s = elim (D.find_bucket s.rows r.name) [
    | some existing ↦ err bucket_already_exists
    | none ↦ ok (
      tt,
      record {
        rows = D.write (put_bucket r ∷ []) s.rows;
        usage = record s.usage { buckets = add64 s.usage.buckets 1 };
      },
    )
  ]

  unfoldable pub get_bucket : String → Store → Option BucketRecord
  get_bucket name s = D.find_bucket s.rows name

  unfoldable pub remove_bucket : String → Store → Outcome (Unit {0})
  unfolding or_fail has_any
  remove_bucket name s = or_fail no_such_bucket (D.find_bucket s.rows name) >>= λ r.
      if has_any (D.scan_objects s.rows name)
      then err bucket_not_empty
      else if has_any (D.scan_marks s.rows name)
      then err bucket_not_empty
      else ok (
        tt,
        record {
          rows = D.write (delete_bucket name ∷ []) s.rows;
          usage = record s.usage { buckets = sub64 s.usage.buckets 1 };
        },
      )

  unfoldable pub update_bucket : BucketRecord → Store → Outcome (Unit {0})
  unfolding or_fail
  update_bucket r s = or_fail no_such_bucket (D.find_bucket s.rows r.name) >>= λ old.
      ok (tt, record s { rows = D.write (put_bucket r ∷ []) s.rows })

  -- Objects

  unfoldable pub store_object : String → ObjectRecord → ℕ → Store → Outcome PutOutcome
  unfolding or_fail replaced_object put_batch count_put
  store_object bucket object now s = or_fail no_such_bucket (D.find_bucket s.rows bucket) >>= λ r.
      let previous = D.find_object s.rows bucket object.key in
      let outcome = replaced_object previous in
      ok (
        outcome,
        record {
          rows = D.write (put_batch bucket object now outcome.released_blob_id) s.rows;
          usage = count_put previous object s.usage;
        },
      )

  unfoldable pub get_object : String → Bytes → Store → Option ObjectRecord
  get_object bucket key s = D.find_object s.rows bucket key

  unfoldable pub drop_object : String → Bytes → ℕ → Store → Outcome DeleteOutcome
  unfolding or_fail
  drop_object bucket key now s = or_fail no_such_bucket (D.find_bucket s.rows bucket) >>= λ r.
      elim (D.find_object s.rows bucket key) [
        | none ↦ ok (nothing_deleted, s)
        | some existing ↦ ok (
          record {
            existed = true;
            released_blob_id = some existing.blob_id;
            released_bytes = existing.size;
          },
          record {
            rows = D.write (delete_object bucket key ∷ put_orphan existing.blob_id now ∷ []) s.rows;
            usage = record s.usage {
              objects = sub64 s.usage.objects 1;
              bytes = sub64 s.usage.bytes existing.size;
              orphan_blobs = add64 s.usage.orphan_blobs 1;
            };
          },
        )
      ]

  -- Multipart

  unfoldable pub create_upload : UploadRecord → Store → Outcome (Unit {0})
  unfolding or_fail
  create_upload u s = or_fail no_such_bucket (D.find_bucket s.rows u.bucket) >>= λ r. ok (
    tt,
    record {
      rows = D.write (put_upload u ∷ put_upload_by_key u.bucket u.key u.upload_id ∷ []) s.rows;
      usage = record s.usage { uploads = add64 s.usage.uploads 1 };
    },
  )

  unfoldable pub get_upload : String → Store → Option UploadRecord
  get_upload id s = D.find_upload s.rows id

  unfoldable pub store_part : String → PartRecord → ℕ → Store → Outcome PutOutcome
  unfolding or_fail replaced_part part_batch
  store_part id part now s =
      if (part.part_number == 0) || ltb max_part_number part.part_number
      then err invalid_part
      else or_fail no_such_upload (D.find_upload s.rows id) >>= λ u.
          let outcome = replaced_part (D.find_part s.rows id part.part_number) in
          ok (
            outcome,
            record {
              rows = D.write (part_batch id part now outcome.released_blob_id) s.rows;
              usage = record s.usage {
                orphan_blobs = elim (outcome.released_blob_id) [
                  | none ↦ sub64 s.usage.orphan_blobs 1
                  | some blob ↦ add64 (sub64 s.usage.orphan_blobs 1) 1
                ];
              };
            },
          )

  unfoldable pub list_parts : String → Store → Result StorageErrorCode (List PartRecord)
  unfolding or_fail
  list_parts id s =
      or_fail no_such_upload (D.find_upload s.rows id) >>= λ u. ok (D.scan_parts s.rows id)

  unfoldable pub abort_upload : String → ℕ → Store → Outcome AbortOutcome
  unfolding or_fail end_upload blobs_of released_bytes
  abort_upload id now s = or_fail no_such_upload (D.find_upload s.rows id) >>= λ u.
      let parts = D.scan_parts s.rows id in
      ok (
        record {
          bucket = u.bucket;
          released_blob_ids = blobs_of parts;
          released_bytes = released_bytes parts;
        },
        record {
          rows = D.write (end_upload (record u { upload_id = id }) now parts) s.rows;
          usage = record s.usage {
            uploads = sub64 s.usage.uploads 1;
            orphan_blobs = add64 s.usage.orphan_blobs (length parts);
          };
        },
      )

  unfoldable pub complete_upload :
      String → String → ObjectRecord → ℕ → Store → Outcome CompleteOutcome
  unfolding or_fail replaced_object put_batch count_put end_upload blobs_of released_bytes
  complete_upload bucket id object now s =
      or_fail no_such_bucket (D.find_bucket s.rows bucket)
      >>= (λ r. or_fail no_such_upload (D.find_upload s.rows id))
      >>= λ u.
          let previous = D.find_object s.rows bucket object.key in
          let outcome = replaced_object previous in
          let parts = D.scan_parts s.rows id in
          let counted = count_put previous object s.usage in
          ok (
            record {
              released_blob_id = outcome.released_blob_id;
              replaced_bytes = outcome.replaced_bytes;
              released_part_blob_ids = blobs_of parts;
              released_part_bytes = released_bytes parts;
            },
            record {
              rows =
                  D.write
                    (put_batch bucket object now outcome.released_blob_id
                      ++ end_upload (record u { upload_id = id }) now parts)
                    s.rows;
              usage = record counted {
                uploads = sub64 counted.uploads 1;
                orphan_blobs = add64 counted.orphan_blobs (length parts);
              };
            },
          )

  -- Reclamation

  unfoldable pub track_blob : String → ℕ → Store → Store
  track_blob blob now s = record {
    rows = D.write (put_orphan blob now ∷ []) s.rows;
    usage = record s.usage { orphan_blobs = add64 s.usage.orphan_blobs 1 };
  }

  unfoldable pub list_orphans : ℕ → ℕ → Store → List String
  unfolding aged
  list_orphans limit cutoff s = aged limit cutoff (D.scan_orphans s.rows)

  unfoldable pub forget_orphans : List String → Store → Store
  unfolding forget_batch
  forget_orphans [] s = s
  forget_orphans (blob ∷ blobs) s = record {
    rows = D.write (forget_batch (blob ∷ blobs)) s.rows;
    usage = record s.usage { orphan_blobs = s.usage.orphan_blobs - length (blob ∷ blobs) };
  }
