-- ===== src/Storage/Engine/Whole/Parts.antt =====
-- backend/src/storage/storage_engine.cpp: the methods of multipart uploads but for the completion.
use mono_bucket.Base.{
  ℕ, ◌==◌, String, ◌≡◌, sym, ◌∙◌, ap, inl, inr, ◌||◌, not, [], ◌∷◌, ltb, add64, subst, Bool-cases,
  Option-cases, Result-cases,
}
use mono_bucket.Storage.Metadata.{
  Database, IsLawful, Checksum, PartRecord, UploadRecord, replay, put_upload, put_upload_by_key,
  object_after, part_after, orphan_after,
}
use mono_bucket.Storage.Records.{are_storable_header_values}
use mono_bucket.Storage.Metadata.Store.{
  store_part, create_upload, abort_upload, get_upload, or_fail, part_batch, replaced_part,
  end_upload, blobs_of, max_part_number,
}
use mono_bucket.Storage.Quota.{Reservation, extend}
use mono_bucket.Storage.Engine.{Engine, Digests, PutRequest, commit, abandon_write, written_bytes}
use mono_bucket.Storage.Engine.Uploads.{part_of}
use mono_bucket.Storage.Engine.Multipart.{
  begin_upload, upload_of, uploaded_part_bytes, settle_part, claim_part, part_committed,
  finish_part, discard_upload,
}
use mono_bucket.Storage.Engine.Whole.{Holder, object_at, part_at, IsWhole, Sits, IsWhole-shrink}
use mono_bucket.Storage.Engine.Whole.Rows.{held_by, object_claim, part_claim, view, IsPut-IsWhole}
use mono_bucket.Storage.Engine.Whole.Puts.{part_batch-IsPut, released_part}
use mono_bucket.Storage.Engine.Whole.Drops.{IsDrop-IsWhole, end_upload-IsDrop}
use mono_bucket.Storage.Engine.Whole.Keeps.{
  engine_view, IsWhole-reclaim_released, IsWhole-reclaim_now,
}
use mono_bucket.Storage.Engine.Whole.Writers.{IsReady, commit-cases, IsWhole-drop_writer}

module _ (D : Database) (law : IsLawful D) (H : Digests) where
  IsWhole-settle_part :
      (u : UploadRecord) (id : String) (o : PartRecord) (r : Reservation) (now : ℕ) (e : Engine D H)
      → IsWhole (engine_view D H e)
      → IsReady D law H e o.blob_id o.size
      → IsWhole (engine_view D H (settle_part D H u id o r now e).1)
  unfolding engine_view settle_part store_part or_fail released_part replaced_part IsReady view
  IsWhole-settle_part u id o r now e whole (unheld, (stored, unwritten)) =
      elim (Bool-cases ((o.part_number == 0) || ltb max_part_number o.part_number)) [
        | inl p ↦ rw (p, settle_part, store_part) whole
        | inr p ↦ elim (Option-cases (D.find_upload (e.store.rows) id)) [
          | inl t ↦ rw (p, t, settle_part, store_part) whole
          | inr (b, t) ↦
              let released = released_part (D.find_part (e.store.rows) id o.part_number) in
              let put =
                IsPut-IsWhole (engine_view D H e)
                  (view D (D.write (part_batch id o now released) (e.store.rows)) e.files e.writers)
                  (part_at id o.part_number) o.blob_id o.size released whole unheld stored unwritten
                  (part_batch-IsPut D law (e.store.rows) id o now e.files e.writers) in
              rw (p, t, settle_part, store_part)
                (IsWhole-reclaim_released D law H released _ (put.0) (put.1))
        ]
      ]

  IsWhole-claim_part :
      (u : UploadRecord) (id : String) (o : PartRecord) (r : Reservation) (now : ℕ) (e : Engine D H)
      → IsWhole (engine_view D H e)
      → IsReady D law H e o.blob_id o.size
      → IsWhole (engine_view D H (claim_part D H u id o r now e).1)
  unfolding engine_view claim_part IsReady view
  IsWhole-claim_part u id o r now e whole ready =
      elim (Result-cases ((extend r u.bucket o.size e.quotas).0)) [
        | inl (code, t) ↦ rw (t, claim_part) whole
        | inr (claim, t) ↦
            rw (t, claim_part)
              (IsWhole-settle_part u id o claim now
                (record e { quotas = (extend r u.bucket o.size e.quotas).1 }) whole ready)
      ]

  IsWhole-part_committed :
      (u : UploadRecord) (id : String) (number : ℕ) (blob : String) (r : Reservation)
      (checksum : Checksum) (now : ℕ) (e : Engine D H)
      → IsWhole (engine_view D H e)
      → IsWhole (
          engine_view D H
            (part_committed D H u id number blob r checksum now (commit D H blob e)).1)
  unfolding part_committed engine_view abandon_write view part_of
  IsWhole-part_committed u id number blob r checksum now e whole =
      elim (commit-cases D law H blob e whole) [
        | inl t ↦
            subst
              (λ x.
                IsWhole (engine_view D H (part_committed D H u id number blob r checksum now x).1))
              (sym t) (IsWhole-drop_writer D law H blob e whole)
        | inr (c, (f, (t, (whole', ready)))) ↦
            subst
              (λ x.
                IsWhole (engine_view D H (part_committed D H u id number blob r checksum now x).1))
              (sym t) (IsWhole-claim_part u id (part_of number c checksum now) r now f whole' ready)
      ]

  pub IsWhole-finish_part :
      (id : String) (number : ℕ) (blob : String) (r : Reservation) (checksum : Checksum) (now : ℕ)
      (e : Engine D H)
      → IsWhole (engine_view D H e)
      → IsWhole (engine_view D H (finish_part D H id number blob r checksum now e).1)
  unfolding finish_part get_upload engine_view abandon_write view
  IsWhole-finish_part id number blob r checksum now e whole =
      let dropped = IsWhole-drop_writer D law H blob e whole in
      elim (Option-cases (D.find_upload (e.store.rows) id)) [
        | inl t ↦ rw (t, finish_part, get_upload) dropped
        | inr (u, t) ↦ elim (Result-cases (uploaded_part_bytes D H id number e)) [
          | inl (code, v) ↦ rw (t, v, finish_part, get_upload) dropped
          | inr (others, v) ↦
              elim (Bool-cases (ltb e.max_upload_bytes (add64 others (written_bytes D H blob e)))) [
                | inl w ↦ rw (t, v, w, finish_part, get_upload) dropped
                | inr w ↦
                    rw (t, v, w, finish_part, get_upload)
                      (IsWhole-part_committed u id number blob r checksum now e whole)
              ]
        ]
      ]

  -- The rows of a new upload reference no payload.
  upload_held :
      (s : D.State) (u : UploadRecord) (h : Holder)
      → held_by D (D.write (put_upload u ∷ put_upload_by_key u.bucket u.key u.upload_id ∷ []) s) h
        ≡ held_by D s h
  unfolding held_by replay object_after part_after
  upload_held s u (object_at b k) =
      ap object_claim
        (law.object-write (put_upload u ∷ put_upload_by_key u.bucket u.key u.upload_id ∷ []) s b k)
  upload_held s u (part_at i n) =
      ap part_claim
        (law.part-write (put_upload u ∷ put_upload_by_key u.bucket u.key u.upload_id ∷ []) s i n)

  pub IsWhole-begin_upload :
      (id : String) (q : PutRequest) (now : ℕ) (e : Engine D H)
      → IsWhole (engine_view D H e)
      → IsWhole (engine_view D H (begin_upload D H id q now e).1)
  unfolding begin_upload create_upload upload_of or_fail engine_view view IsWhole Sits replay
      orphan_after
  IsWhole-begin_upload id q now e (sits, apart) =
      elim (Bool-cases (not (are_storable_header_values q.content))) [
        | inl p ↦ rw (p, begin_upload) (sits, apart)
        | inr p ↦ elim (Option-cases (D.find_bucket (e.store.rows) q.bucket)) [
          | inl t ↦ rw (p, t, begin_upload, create_upload) (sits, apart)
          | inr (b, t) ↦
              let u = upload_of id q now in
              let batch = put_upload u ∷ put_upload_by_key u.bucket u.key u.upload_id ∷ [] in
              rw (p, t, begin_upload, create_upload)
                (IsWhole-shrink (engine_view D H e)
                  (view D (D.write batch (e.store.rows)) e.files e.writers) (sits, apart)
                  (λ h j n eq.
                    let was = sym (upload_held (e.store.rows) u h) ∙ eq in
                    let s = sits h j n was in
                    (was, (s.0, (law.orphan-write batch (e.store.rows) j ∙ s.1.0, s.1.1)))))
        ]
      ]

  pub IsWhole-discard_upload :
      (id : String) (now : ℕ) (e : Engine D H)
      → IsWhole (engine_view D H e)
      → IsWhole (engine_view D H (discard_upload D H id now e).1)
  unfolding discard_upload abort_upload or_fail engine_view view
  IsWhole-discard_upload id now e whole = elim (Option-cases (D.find_upload (e.store.rows) id)) [
    | inl t ↦ rw (t, discard_upload, abort_upload) whole
    | inr (u, t) ↦
        let parts = D.scan_parts (e.store.rows) id in
        let over = record u { upload_id = id } in
        let dropped =
          IsDrop-IsWhole (engine_view D H e)
            (view D (D.write (end_upload over now parts) (e.store.rows)) e.files e.writers)
            (blobs_of parts) whole
            (end_upload-IsDrop D law (e.store.rows) over now parts e.files e.writers whole
              (law.parts_found (e.store.rows) id)) in
        rw (t, discard_upload, abort_upload)
          (IsWhole-reclaim_now D law H (blobs_of parts) _ (dropped.0) (dropped.1))
  ]
