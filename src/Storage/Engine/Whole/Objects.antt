-- ===== src/Storage/Engine/Whole/Objects.antt =====
-- backend/src/storage/storage_engine.cpp: the methods that put and delete an object.
use mono_bucket.Base.{
  ℕ, ◌==◌, String, sym, inl, inr, ◌||◌, not, [], ◌∷◌, ltb, Bytes, length, subst, Bool-cases,
  Option-cases, Result-cases,
}
use mono_bucket.Storage.Metadata.{Database, IsLawful, ObjectRecord, delete_object, put_orphan}
use mono_bucket.Storage.Records.{are_storable_header_values}
use mono_bucket.Storage.Metadata.Store.{
  store_object, drop_object, or_fail, put_batch, replaced_object,
}
use mono_bucket.Storage.Quota.{Reservation, extend}
use mono_bucket.Storage.Engine.{
  Engine, Digests, PutRequest, Committed, settle_write, publish_write, publish_committed,
  finish_write, remove_object, commit, abandon_write, object_of, reclaim_released, max_key_length,
  written_bytes,
}
use mono_bucket.Storage.Engine.Whole.{object_at, IsWhole}
use mono_bucket.Storage.Engine.Whole.Rows.{view, IsPut-IsWhole}
use mono_bucket.Storage.Engine.Whole.Puts.{put_batch-IsPut, released_object}
use mono_bucket.Storage.Engine.Whole.Drops.{IsDrop-IsWhole, delete_object-IsDrop}
use mono_bucket.Storage.Engine.Whole.Keeps.{
  engine_view, IsWhole-reclaim_released, IsWhole-reclaim_now,
}
use mono_bucket.Storage.Engine.Whole.Writers.{IsReady, commit-cases, IsWhole-drop_writer}

module _ (D : Database) (law : IsLawful D) (H : Digests) where
  IsWhole-settle_write :
      (q : PutRequest) (o : ObjectRecord) (r : Reservation) (now : ℕ) (e : Engine D H)
      → IsWhole (engine_view D H e)
      → IsReady D law H e o.blob_id o.size
      → IsWhole (engine_view D H (settle_write D H q o r now e).1)
  unfolding engine_view settle_write store_object or_fail released_object replaced_object IsReady
      view
  IsWhole-settle_write q o r now e whole (unheld, (stored, unwritten)) =
      elim (Option-cases (D.find_bucket (e.store.rows) q.bucket)) [
        | inl t ↦ rw (t, settle_write, store_object) whole
        | inr (b, t) ↦
            let put =
              IsPut-IsWhole (engine_view D H e)
                (view D
                  (D.write
                    (put_batch q.bucket o now
                      (released_object (D.find_object (e.store.rows) q.bucket o.key)))
                    (e.store.rows))
                  e.files e.writers)
                (object_at q.bucket o.key) o.blob_id o.size
                (released_object (D.find_object (e.store.rows) q.bucket o.key)) whole unheld stored
                unwritten (put_batch-IsPut D law (e.store.rows) q.bucket o now e.files e.writers) in
            rw (t, settle_write, store_object)
              (IsWhole-reclaim_released D law H
                (released_object (D.find_object (e.store.rows) q.bucket o.key)) _ (put.0) (put.1))
      ]

  IsWhole-publish_write :
      (q : PutRequest) (c : Committed) (r : Reservation) (now : ℕ) (e : Engine D H)
      → IsWhole (engine_view D H e)
      → IsReady D law H e c.blob_id c.size
      → IsWhole (engine_view D H (publish_write D H q c r now e).1)
  unfolding engine_view publish_write object_of IsReady view
  IsWhole-publish_write q c r now e whole ready =
      elim (Result-cases ((extend r q.bucket c.size e.quotas).0)) [
        | inl (code, t) ↦ rw (t, publish_write) whole
        | inr (claim, t) ↦
            rw (t, publish_write)
              (IsWhole-settle_write q (object_of q c now) claim now
                (record e { quotas = (extend r q.bucket c.size e.quotas).1 }) whole ready)
      ]

  IsWhole-publish_committed :
      (q : PutRequest) (blob : String) (r : Reservation) (now : ℕ) (e : Engine D H)
      → IsWhole (engine_view D H e)
      → IsWhole (engine_view D H (publish_committed D H q blob r now (commit D H blob e)).1)
  unfolding publish_committed engine_view abandon_write view
  IsWhole-publish_committed q blob r now e whole = elim (commit-cases D law H blob e whole) [
    | inl t ↦
        subst (λ x. IsWhole (engine_view D H (publish_committed D H q blob r now x).1)) (sym t)
          (IsWhole-drop_writer D law H blob e whole)
    | inr (c, (f, (t, (whole', ready)))) ↦
        subst (λ x. IsWhole (engine_view D H (publish_committed D H q blob r now x).1)) (sym t)
          (IsWhole-publish_write q c r now f whole' ready)
  ]

  pub IsWhole-finish_write :
      (q : PutRequest) (blob : String) (r : Reservation) (now : ℕ) (e : Engine D H)
      → IsWhole (engine_view D H e)
      → IsWhole (engine_view D H (finish_write D H q blob r now e).1)
  unfolding engine_view finish_write abandon_write view
  IsWhole-finish_write q blob r now e whole =
      let dropped = IsWhole-drop_writer D law H blob e whole in
      elim (Bool-cases ((length q.key == 0) || ltb max_key_length (length q.key))) [
        | inl t ↦ rw (t, finish_write) dropped
        | inr t ↦ elim (Bool-cases (not (are_storable_header_values q.content))) [
          | inl u ↦ rw (t, u, finish_write) dropped
          | inr u ↦ elim (Bool-cases (ltb e.max_upload_bytes (written_bytes D H blob e))) [
            | inl w ↦ rw (t, u, w, finish_write) dropped
            | inr w ↦ rw (t, u, w, finish_write) (IsWhole-publish_committed q blob r now e whole)
          ]
        ]
      ]

  pub IsWhole-remove_object :
      (bucket : String) (key : Bytes) (now : ℕ) (e : Engine D H)
      → IsWhole (engine_view D H e)
      → IsWhole (engine_view D H (remove_object D H bucket key now e).1)
  unfolding engine_view remove_object drop_object or_fail reclaim_released view
  IsWhole-remove_object bucket key now e whole =
      elim (Option-cases (D.find_bucket (e.store.rows) bucket)) [
        | inl t ↦ rw (t, remove_object, drop_object) whole
        | inr (b, t) ↦ elim (Option-cases (D.find_object (e.store.rows) bucket key)) [
          | inl u ↦ rw (t, u, remove_object, drop_object) whole
          | inr (o, u) ↦
              let dropped =
                IsDrop-IsWhole (engine_view D H e)
                  (view D
                    (D.write (delete_object bucket key ∷ put_orphan o.blob_id now ∷ [])
                      (e.store.rows))
                    e.files e.writers)
                  (o.blob_id ∷ []) whole
                  (delete_object-IsDrop D law (e.store.rows) bucket key o now e.files e.writers
                    whole u) in
              rw (t, u, remove_object, drop_object)
                (IsWhole-reclaim_now D law H (o.blob_id ∷ []) _ (dropped.0) (dropped.1))
        ]
      ]
