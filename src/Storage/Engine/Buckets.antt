-- ===== src/Storage/Engine/Buckets.antt =====
-- backend/src/storage/storage_engine.cpp: buckets, their settings and their allocations, and the switches
-- of the instance.
use mono_bucket.Base.{
  ltb, ◌==◌, if◌then◌else◌, ℕ, String, Bool, false, Option, none, some, List, [], Bytes, ok, err,
}
use mono_bucket.Storage.Errors.{no_such_bucket, internal, object_too_large}
use mono_bucket.Storage.Records.{BucketRecord, CorsRule, Durability}
use mono_bucket.Storage.Quota.{Reservation, admit_allocation, track, forget, set_quota, reserve}
use mono_bucket.Storage.Metadata.{Database}
use mono_bucket.Storage.Metadata.Store.{create_bucket, get_bucket, remove_bucket, update_bucket}
use mono_bucket.Storage.Engine.{Engine, Digests, Thrown}

unfoldable pub new_bucket : String → ℕ → ℕ → BucketRecord
new_bucket name quota now = record {
  name = name;
  created_at = now;
  public_read = false;
  public_list = false;
  policy = [];
  cors = [];
  quota_bytes = quota;
  durability = none;
}

module _ (D : Database) (H : Digests) where
  -- StorageEngine::createBucket
  unfoldable pub open_bucket : String → ℕ → ℕ → Engine D H → Thrown D H (Unit {0})
  unfolding new_bucket
  open_bucket name quota now e = elim (admit_allocation quota e.quotas) [
    | err code ↦ (err code, e)
    | ok admitted ↦ elim (create_bucket D (new_bucket name quota now) e.store) [
      | err code ↦ (err code, e)
      | ok (done, s) ↦ (ok tt, record e { store = s; quotas = track name quota e.quotas })
    ]
  ]

  -- StorageEngine::deleteBucket
  unfoldable pub close_bucket : String → Engine D H → Thrown D H (Unit {0})
  close_bucket name e = elim (remove_bucket D name e.store) [
    | err code ↦ (err code, e)
    | ok (done, s) ↦ (ok tt, record e { store = s; quotas = forget name e.quotas })
  ]

  -- The read, the change and the update that the setters share.
  unfoldable pub change_bucket :
      String → (BucketRecord → BucketRecord) → Engine D H → Thrown D H (Unit {0})
  change_bucket name change e = elim (get_bucket D name e.store) [
    | none ↦ (err no_such_bucket, e)
    | some b ↦ elim (update_bucket D (change b) e.store) [
      | err code ↦ (err code, e)
      | ok (done, s) ↦ (ok tt, record e { store = s })
    ]
  ]

  unfoldable pub set_bucket_public_read : String → Bool → Engine D H → Thrown D H (Unit {0})
  unfolding change_bucket
  set_bucket_public_read name public_read =
      change_bucket name (λ b. record b { public_read = public_read; public_list = false })

  unfoldable pub set_bucket_policy :
      String → Bytes → Bool → Bool → Engine D H → Thrown D H (Unit {0})
  unfolding change_bucket
  set_bucket_policy name policy public_read public_list =
      change_bucket name
        (λ b. record b { policy = policy; public_read = public_read; public_list = public_list })

  unfoldable pub set_bucket_cors : String → List CorsRule → Engine D H → Thrown D H (Unit {0})
  unfolding change_bucket
  set_bucket_cors name rules = change_bucket name (λ b. record b { cors = rules })

  unfoldable pub set_bucket_durability :
      String → Option Durability → Engine D H → Thrown D H (Unit {0})
  unfolding change_bucket
  set_bucket_durability name durability =
      change_bucket name (λ b. record b { durability = durability })

  -- The ledger decides first, and is put back where the record cannot be written.
  unfoldable pub set_bucket_quota : String → ℕ → Engine D H → Thrown D H (Unit {0})
  set_bucket_quota name quota e = elim (get_bucket D name e.store) [
    | none ↦ (err no_such_bucket, e)
    | some b ↦
        let taken = set_quota name quota e.quotas in
        elim (taken.0) [
          | err code ↦ (err code, record e { quotas = taken.1 })
          | ok done ↦ elim (update_bucket D (record b { quota_bytes = quota }) e.store) [
            | ok (done, s) ↦ (ok tt, record e { store = s; quotas = taken.1 })
            | err code ↦
                let back = set_quota name b.quota_bytes taken.1 in
                elim (back.0) [
                  | ok done ↦ (err code, record e { quotas = back.1 })
                  | err thrown ↦ (err thrown, record e { quotas = back.1 })
                ]
          ]
        ]
  ]

  unfoldable pub reserve_space : String → ℕ → Engine D H → Thrown D H Reservation
  reserve_space bucket bytes e =
      let taken = reserve bucket bytes e.quotas in (taken.0, record e { quotas = taken.1 })

  -- The record of the settings, which the limit is written to first, is left out.
  unfoldable pub set_max_upload_bytes : ℕ → ℕ → Engine D H → Thrown D H (Unit {0})
  set_max_upload_bytes ceiling bytes e =
      if bytes == 0
      then (err internal, e)
      else if ltb ceiling bytes
      then (err object_too_large, e)
      else (ok tt, record e { max_upload_bytes = bytes })

  -- The barrier of `checkpoint`, raised and lowered.
  unfoldable pub set_checkpointing : Bool → Engine D H → Engine D H
  set_checkpointing raised e = record e { checkpointing = raised }
