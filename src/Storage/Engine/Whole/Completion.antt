-- ===== src/Storage/Engine/Whole/Completion.antt =====
-- backend/src/storage/storage_engine.cpp: the completion of a multipart upload.
use mono_bucket.Base.{
  ℕ, String, ◌≡◌, refl, sym, ◌∙◌, ap, inl, inr, Option, some, List, [], ◌∷◌, ◌++◌, Bytes, Dict,
  lookup, subst, Option-cases, Result-cases, All, ok, err, ◌>>=◌,
}
use mono_bucket.Storage.Metadata.{
  Database, IsLawful, Change, WriteBatch, Checksum, ObjectRecord, PartRecord, UploadRecord, replay,
  object_after, part_after, orphan_after,
}
use mono_bucket.Storage.Metadata.Store.{
  complete_upload, get_upload, list_parts, or_fail, put_batch, replaced_object, end_upload,
  blobs_of,
}
use mono_bucket.Storage.Engine.{Engine, Digests, Thrown, begin_write, write_bytes, commit}
use mono_bucket.Storage.Engine.Uploads.{RequestedPart, assembled_object, etags_of}
use mono_bucket.Storage.Engine.Multipart.{
  append_parts, settle_upload, upload_committed, parts_appended, assemble, finish_upload,
  check_parts,
}
use mono_bucket.Storage.Engine.Whole.{
  Holder, object_at, part_at, View, IsWhole, IsUnheld, Sits, IsWhole-shrink,
}
use mono_bucket.Storage.Engine.Whole.Rows.{held_by, object_claim, part_claim, view, IsPut-IsWhole}
use mono_bucket.Storage.Engine.Whole.Puts.{put_batch-IsPut, released_object, find_part-put_batch}
use mono_bucket.Storage.Engine.Whole.Drops.{IsDrop, IsDrop-IsWhole, end_upload-IsDrop}
use mono_bucket.Storage.Engine.Whole.Keeps.{
  engine_view, IsWhole-reclaim_released, IsWhole-reclaim_now, held-reclaim_released,
}
use mono_bucket.Storage.Engine.Whole.Writers.{
  IsReady, commit-cases, IsWhole-drop_writer, IsWhole-begin_write, IsWhole-write_bytes,
}

replay-append {ℓ} :
    {A : Type ℓ} (step : Change → A → A) (a b : WriteBatch) (old : A)
    → replay step (a ++ b) old ≡ replay step b (replay step a old)
unfolding replay
replay-append step [] b old = refl
replay-append step (c ∷ a) b old = replay-append step a b (step c old)

-- Blobs that no row has before a step that keeps what the rows have.
kept_unheld :
    (v w : View) (blobs : List String)
    → ((h : Holder) → w.held h ≡ v.held h)
    → All (IsUnheld v) blobs
    → All (IsUnheld w) blobs
unfolding IsUnheld
kept_unheld v w [] same unheld = tt
kept_unheld v w (b ∷ blobs) same (u, unheld) =
    ((λ h n e. u h n (sym (same h) ∙ e)), kept_unheld v w blobs same unheld)

module _ (D : Database) (law : IsLawful D) (H : Digests) where
  -- One batch or two leave the same rows.
  held_append :
      (s : D.State) (a b : WriteBatch) (h : Holder)
      → held_by D (D.write (a ++ b) s) h ≡ held_by D (D.write b (D.write a s)) h
  unfolding held_by
  held_append s a b (object_at c k) = ap object_claim (
      law.object-write (a ++ b) s c k
      ∙ replay-append (λ x. object_after x c k) a b (D.find_object s c k)
      ∙ ap (λ o. replay (λ x. object_after x c k) b o) (sym (law.object-write a s c k))
      ∙ sym (law.object-write b (D.write a s) c k))
  held_append s a b (part_at i n) = ap part_claim (
      law.part-write (a ++ b) s i n
      ∙ replay-append (λ x. part_after x i n) a b (D.find_part s i n)
      ∙ ap (λ o. replay (λ x. part_after x i n) b o) (sym (law.part-write a s i n))
      ∙ sym (law.part-write b (D.write a s) i n))

  orphan_append :
      (s : D.State) (a b : WriteBatch) (j : String)
      → D.find_orphan (D.write (a ++ b) s) j ≡ D.find_orphan (D.write b (D.write a s)) j
  orphan_append s a b j =
      law.orphan-write (a ++ b) s j
      ∙ replay-append (λ x. orphan_after x j) a b (D.find_orphan s j)
      ∙ ap (λ o. replay (λ x. orphan_after x j) b o) (sym (law.orphan-write a s j))
      ∙ sym (law.orphan-write b (D.write a s) j)

  whole_append :
      (s : D.State) (a b : WriteBatch) (files writers : Dict Bytes)
      → IsWhole (view D (D.write b (D.write a s)) files writers)
      → IsWhole (view D (D.write (a ++ b) s) files writers)
  unfolding view IsWhole Sits
  whole_append s a b files writers (sits, apart) =
      IsWhole-shrink (view D (D.write b (D.write a s)) files writers)
        (view D (D.write (a ++ b) s) files writers) (sits, apart)
        (λ h j n e.
          let was = sym (held_append s a b h) ∙ e in
          let t = sits h j n was in (was, (t.0, (orphan_append s a b j ∙ t.1.0, t.1.1))))

  still_found :
      (s : D.State) (bucket : String) (o : ObjectRecord) (now : ℕ) (rel : Option String)
      (i : String) (parts : List PartRecord)
      → All (λ r. D.find_part s i r.part_number ≡ some r) parts
      → All
          (λ r. D.find_part (D.write (put_batch bucket o now rel) s) i r.part_number ≡ some r)
          parts
  still_found s bucket o now rel i [] found = tt
  still_found s bucket o now rel i (r ∷ parts) (f, found) = (
    find_part-put_batch D law s bucket o now rel i r.part_number ∙ f,
    still_found s bucket o now rel i parts found,
  )

  -- The rows of a completion: the object has the new payload, and neither its old one nor those of
  -- the parts are on any row.
  completed :
      (e : Engine D H) (bucket : String) (u : UploadRecord) (o : ObjectRecord) (now : ℕ)
      → IsWhole (engine_view D H e)
      → IsReady D law H e o.blob_id o.size
      → let s = e.store.rows in
        let released = released_object (D.find_object s bucket o.key) in
        let parts = D.scan_parts s u.upload_id in
        let w =
          view D
            (D.write (put_batch bucket o now released ++ end_upload u now parts) s)
            e.files
            e.writers in
        IsWhole w
        × (((j : String) → released ≡ some j → IsUnheld w j) × All (IsUnheld w) (blobs_of parts))
  unfolding engine_view IsReady view IsDrop IsUnheld
  completed e bucket u o now whole (unheld, (stored, unwritten)) =
      let s = e.store.rows in
      let released = released_object (D.find_object s bucket o.key) in
      let parts = D.scan_parts s u.upload_id in
      let a = put_batch bucket o now released in
      let b = end_upload u now parts in
      let put =
        IsPut-IsWhole (engine_view D H e) (view D (D.write a s) e.files e.writers)
          (object_at bucket o.key) o.blob_id o.size released whole unheld stored unwritten
          (put_batch-IsPut D law s bucket o now e.files e.writers) in
      let drop =
        end_upload-IsDrop D law (D.write a s) u now parts e.files e.writers (put.0)
          (still_found s bucket o now released u.upload_id parts (law.parts_found s u.upload_id)) in
      let dropped =
        IsDrop-IsWhole (view D (D.write a s) e.files e.writers)
          (view D (D.write b (D.write a s)) e.files e.writers) (blobs_of parts) (put.0) drop in
      (
        whole_append s a b e.files e.writers (dropped.0),
        (
          (λ j r h n eq. put.1 j r h n ((drop.0 h j n (sym (held_append s a b h) ∙ eq)).0)),
          kept_unheld (view D (D.write b (D.write a s)) e.files e.writers)
              (view D (D.write (a ++ b) s) e.files e.writers) (blobs_of parts) (held_append s a b)
              (dropped.1),
        ),
      )

  IsWhole-settle_upload :
      (u : UploadRecord) (id : String) (o : ObjectRecord) (now : ℕ) (e : Engine D H)
      → IsWhole (engine_view D H e)
      → IsReady D law H e o.blob_id o.size
      → IsWhole (engine_view D H (settle_upload D H u id o now e).1)
  unfolding engine_view settle_upload complete_upload or_fail released_object replaced_object view
  IsWhole-settle_upload u id o now e whole ready =
      elim (Option-cases (D.find_bucket (e.store.rows) u.bucket)) [
        | inl t ↦ rw (t, settle_upload, complete_upload) whole
        | inr (b, t) ↦ elim (Option-cases (D.find_upload (e.store.rows) id)) [
          | inl v ↦ rw (t, v, settle_upload, complete_upload) whole
          | inr (w, v) ↦
              let released = released_object (D.find_object (e.store.rows) u.bucket o.key) in
              let parts = D.scan_parts (e.store.rows) id in
              let over = record w { upload_id = id } in
              let done = completed e u.bucket over o now whole ready in
              rw (t, v, settle_upload, complete_upload)
                (IsWhole-reclaim_now D law H (blobs_of parts) _
                  (IsWhole-reclaim_released D law H released _ (done.0) (done.1.0))
                  (kept_unheld
                    (view D
                      (D.write (put_batch u.bucket o now released ++ end_upload over now parts)
                        (e.store.rows))
                      e.files e.writers)
                    _ (blobs_of parts) (held-reclaim_released D law H released _) (done.1.1)))
        ]
      ]

  IsWhole-upload_committed :
      (u : UploadRecord) (id blob : String) (etag : Bytes) (composite : Checksum) (now : ℕ)
      (e : Engine D H)
      → IsWhole (engine_view D H e)
      → IsWhole (
          engine_view D H (upload_committed D H u id blob etag composite now (commit D H blob e)).1)
  unfolding upload_committed assembled_object
  IsWhole-upload_committed u id blob etag composite now e whole =
      elim (commit-cases D law H blob e whole) [
        | inl t ↦
            subst
              (λ x.
                IsWhole (engine_view D H (upload_committed D H u id blob etag composite now x).1))
              (sym t) (IsWhole-drop_writer D law H blob e whole)
        | inr (c, (f, (t, (whole', ready)))) ↦
            subst
              (λ x.
                IsWhole (engine_view D H (upload_committed D H u id blob etag composite now x).1))
              (sym t)
              (IsWhole-settle_upload u id (assembled_object u c etag composite now) now f whole'
                ready)
      ]

  IsWhole-append_parts :
      (blob : String) (parts : List PartRecord) (e : Engine D H)
      → IsWhole (engine_view D H e)
      → IsWhole (engine_view D H (append_parts D H blob parts e).1)
  unfolding append_parts
  IsWhole-append_parts blob [] e whole = whole
  IsWhole-append_parts blob (r ∷ parts) e whole = elim (Option-cases (lookup r.blob_id e.files)) [
    | inl t ↦ rw (t, append_parts) whole
    | inr (content, t) ↦
        let f = (write_bytes D H blob content e).1 in
        let whole' = IsWhole-write_bytes D law H blob content e whole in
        elim (Result-cases ((write_bytes D H blob content e).0)) [
          | inl (code, v) ↦ rw (t, v, append_parts) whole'
          | inr (done, v) ↦ rw (t, v, append_parts) (IsWhole-append_parts blob parts f whole')
        ]
  ]

  IsWhole-parts_appended :
      (u : UploadRecord) (id blob : String) (etag : Bytes) (composite : Checksum) (now : ℕ)
      (x : Thrown D H (Unit {0}))
      → IsWhole (engine_view D H (x.1))
      → IsWhole (engine_view D H (parts_appended D H u id blob etag composite now x).1)
  unfolding parts_appended
  IsWhole-parts_appended u id blob etag composite now (err code, e) whole =
      IsWhole-drop_writer D law H blob e whole
  IsWhole-parts_appended u id blob etag composite now (ok done, e) whole =
      IsWhole-upload_committed u id blob etag composite now e whole

  IsWhole-assemble :
      (u : UploadRecord) (id blob : String) (parts : List PartRecord) (composite : Checksum)
      (now : ℕ) (x : Thrown D H String)
      → IsWhole (engine_view D H (x.1))
      → IsWhole (engine_view D H (assemble D H u id blob parts composite now x).1)
  unfolding assemble
  IsWhole-assemble u id blob parts composite now (err code, e) whole = whole
  IsWhole-assemble u id blob parts composite now (ok opened, e) whole =
      IsWhole-parts_appended u id blob (H.multipart_etag (etags_of parts)) composite now
        (append_parts D H blob parts e) (IsWhole-append_parts blob parts e whole)

  pub IsWhole-finish_upload :
      (id blob : String) (requested : List RequestedPart) (expected : Checksum) (now : ℕ)
      (e : Engine D H)
      → IsWhole (engine_view D H e)
      → IsUnheld (engine_view D H e) blob
      → IsWhole (engine_view D H (finish_upload D H id blob requested expected now e).1)
  unfolding finish_upload get_upload
  IsWhole-finish_upload id blob requested expected now e whole unheld =
      elim (Option-cases (D.find_upload (e.store.rows) id)) [
        | inl t ↦ rw (t, finish_upload, get_upload) whole
        | inr (u, t) ↦
            elim (Result-cases (
              list_parts D id e.store
              >>= check_parts D H e.max_upload_bytes u requested expected)) [
                | inl (code, v) ↦ rw (t, v, finish_upload, get_upload) whole
                | inr ((ordered, composite), v) ↦
                    rw (t, v, finish_upload, get_upload)
                      (IsWhole-assemble u id blob ordered composite now (begin_write D H blob now e)
                        (IsWhole-begin_write D law H blob now e whole unheld))
              ]
      ]
