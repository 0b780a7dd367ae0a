-- ===== src/Storage/Engine/Whole/Run.antt =====
-- backend/src/storage/storage_engine.cpp: any sequence of the engine's methods.
use mono_bucket.Base.{
  ltb, ◌==◌, ℕ, String, ◌≡◌, refl, sym, ◌∙◌, ap, ◌⊎◌, inl, inr, Bool, Option, none, some, List, [],
  ◌∷◌, Bytes, length, Bool-cases, Option-cases, Result-cases, ok,
}
use mono_bucket.Storage.Records.{BucketRecord}
use mono_bucket.Storage.Quota.{Reservation, admit_allocation, release, set_quota}
use mono_bucket.Storage.Metadata.{
  Database, IsLawful, Checksum, ObjectRecord, PartRecord, Change, put_bucket, delete_bucket, replay,
  object_after, part_after, orphan_after,
}
use mono_bucket.Storage.Metadata.Store.{
  create_bucket, get_bucket, remove_bucket, update_bucket, get_object, or_fail, has_any,
}
use mono_bucket.Storage.Engine.{
  Engine, Digests, PutRequest, begin_write, write_bytes, drop_writer, finish_write, remove_object,
  reclaim_older_than, read_object, with_payload,
}
use mono_bucket.Storage.Engine.Uploads.{RequestedPart}
use mono_bucket.Storage.Engine.Multipart.{begin_upload, finish_part, discard_upload, finish_upload}
use mono_bucket.Storage.Engine.Buckets.{
  open_bucket, close_bucket, change_bucket, set_bucket_quota, reserve_space, set_max_upload_bytes,
  set_checkpointing, new_bucket,
}
use mono_bucket.Storage.Engine.Whole.{
  Holder, object_at, part_at, IsWhole, IsUnheld, Sits, IsWhole-shrink,
}
use mono_bucket.Storage.Engine.Whole.Rows.{held_by, object_claim, part_claim, view}
use mono_bucket.Storage.Engine.Whole.Keeps.{engine_view, IsWhole-reclaim_older_than}
use mono_bucket.Storage.Engine.Whole.Writers.{
  IsWhole-begin_write, IsWhole-write_bytes, IsWhole-drop_writer,
}
use mono_bucket.Storage.Engine.Whole.Objects.{IsWhole-finish_write, IsWhole-remove_object}
use mono_bucket.Storage.Engine.Whole.Parts.{
  IsWhole-begin_upload, IsWhole-finish_part, IsWhole-discard_upload,
}
use mono_bucket.Storage.Engine.Whole.Completion.{IsWhole-finish_upload}

module _ (D : Database) (H : Digests) where
  -- A method of the engine, run to its end. A blob id is drawn at random, so that no row has it.
  pub data Step : Engine D H → Engine D H → Type 0 where
    opens :
        (name : String) (quota now : ℕ) (e : Engine D H)
        → Step e (open_bucket D H name quota now e).1
    closes : (name : String) (e : Engine D H) → Step e (close_bucket D H name e).1
    changes :
        (name : String) (change : BucketRecord → BucketRecord) (e : Engine D H)
        → Step e (change_bucket D H name change e).1
    allots :
        (name : String) (quota : ℕ) (e : Engine D H) → Step e (set_bucket_quota D H name quota e).1
    reserves :
        (name : String) (bytes : ℕ) (e : Engine D H) → Step e (reserve_space D H name bytes e).1
    releases :
        (r : Reservation) (e : Engine D H) → Step e (record e { quotas = (release r e.quotas).1 })
    limits :
        (ceiling bytes : ℕ) (e : Engine D H) → Step e (set_max_upload_bytes D H ceiling bytes e).1
    switches : (raised : Bool) (e : Engine D H) → Step e (set_checkpointing D H raised e)
    begins :
        (blob : String) (now : ℕ) (e : Engine D H)
        → IsUnheld (engine_view D H e) blob
        → Step e (begin_write D H blob now e).1
    writes :
        (blob : String) (bytes : Bytes) (e : Engine D H) → Step e (write_bytes D H blob bytes e).1
    drops : (blob : String) (e : Engine D H) → Step e (drop_writer D H blob e)
    finishes :
        (q : PutRequest) (blob : String) (r : Reservation) (now : ℕ) (e : Engine D H)
        → Step e (finish_write D H q blob r now e).1
    removes :
        (bucket : String) (key : Bytes) (now : ℕ) (e : Engine D H)
        → Step e (remove_object D H bucket key now e).1
    begins_upload :
        (id : String) (q : PutRequest) (now : ℕ) (e : Engine D H)
        → Step e (begin_upload D H id q now e).1
    finishes_part :
        (id : String) (number : ℕ) (blob : String) (r : Reservation) (checksum : Checksum) (now : ℕ)
        (e : Engine D H)
        → Step e (finish_part D H id number blob r checksum now e).1
    discards : (id : String) (now : ℕ) (e : Engine D H) → Step e (discard_upload D H id now e).1
    finishes_upload :
        (id blob : String) (requested : List RequestedPart) (expected : Checksum) (now : ℕ)
        (e : Engine D H)
        → IsUnheld (engine_view D H e) blob
        → Step e (finish_upload D H id blob requested expected now e).1
    reclaims :
        (limit cutoff : ℕ) (e : Engine D H) → Step e (reclaim_older_than D H limit cutoff e).1

  pub data Run : Engine D H → Engine D H → Type 0 where
    stop : (e : Engine D H) → Run e e
    step : (e f g : Engine D H) → Step e f → Run f g → Run e g

module _ (D : Database) (law : IsLawful D) (H : Digests) where
  -- A change of a row that references no payload.
  quiet_whole :
      (s : D.State) (c : Change) (e : Engine D H)
      → ((b : String) (k : Bytes) (o : Option ObjectRecord) → object_after c b k o ≡ o)
      → ((i : String) (n : ℕ) (o : Option PartRecord) → part_after c i n o ≡ o)
      → ((j : String) (o : Option ℕ) → orphan_after c j o ≡ o)
      → IsWhole (view D s e.files e.writers)
      → IsWhole (view D (D.write (c ∷ []) s) e.files e.writers)
  unfolding IsWhole Sits view replay object_after
  quiet_whole s c e objects parts orphans (sits, apart) =
      IsWhole-shrink (view D s e.files e.writers) (view D (D.write (c ∷ []) s) e.files e.writers)
        (sits, apart)
        (λ h j n eq.
          let was = sym (same h) ∙ eq in
          let t = sits h j n was in
          (
            was,
            (t.0, (law.orphan-write (c ∷ []) s j ∙ orphans j (D.find_orphan s j) ∙ t.1.0, t.1.1)),
          ))
    where
      same : (h : Holder) → held_by D (D.write (c ∷ []) s) h ≡ held_by D s h
      same (object_at b k) =
          ap object_claim (law.object-write (c ∷ []) s b k ∙ objects b k (D.find_object s b k))
      same (part_at i n) =
          ap part_claim (law.part-write (c ∷ []) s i n ∙ parts i n (D.find_part s i n))

  put_bucket_whole :
      (r : BucketRecord) (e : Engine D H)
      → IsWhole (engine_view D H e)
      → IsWhole (view D (D.write (put_bucket r ∷ []) (e.store.rows)) e.files e.writers)
  unfolding engine_view object_after part_after orphan_after
  put_bucket_whole r e whole =
      quiet_whole (e.store.rows) (put_bucket r) e (λ b k o. refl) (λ i n o. refl) (λ j o. refl)
        whole

  IsWhole-open_bucket :
      (name : String) (quota now : ℕ) (e : Engine D H)
      → IsWhole (engine_view D H e)
      → IsWhole (engine_view D H (open_bucket D H name quota now e).1)
  unfolding open_bucket create_bucket engine_view view new_bucket
  IsWhole-open_bucket name quota now e whole =
      elim (Result-cases (admit_allocation quota e.quotas)) [
        | inl (code, t) ↦ rw (t, open_bucket) whole
        | inr (admitted, t) ↦ elim (Option-cases (D.find_bucket (e.store.rows) name)) [
          | inr (b, u) ↦ rw (t, u, open_bucket, create_bucket) whole
          | inl u ↦
              rw (t, u, open_bucket, create_bucket)
                (put_bucket_whole (new_bucket name quota now) e whole)
        ]
      ]

  IsWhole-close_bucket :
      (name : String) (e : Engine D H)
      → IsWhole (engine_view D H e)
      → IsWhole (engine_view D H (close_bucket D H name e).1)
  unfolding close_bucket remove_bucket or_fail engine_view view object_after part_after orphan_after
  IsWhole-close_bucket name e whole = elim (Option-cases (D.find_bucket (e.store.rows) name)) [
    | inl t ↦ rw (t, close_bucket, remove_bucket) whole
    | inr (b, t) ↦ elim (Bool-cases (has_any (D.scan_objects (e.store.rows) name))) [
      | inl u ↦ rw (t, u, close_bucket, remove_bucket) whole
      | inr u ↦ elim (Bool-cases (has_any (D.scan_marks (e.store.rows) name))) [
        | inl v ↦ rw (t, u, v, close_bucket, remove_bucket) whole
        | inr v ↦
            rw (t, u, v, close_bucket, remove_bucket)
              (quiet_whole (e.store.rows) (delete_bucket name) e (λ b k o. refl) (λ i n o. refl)
                (λ j o. refl) whole)
      ]
    ]
  ]

  IsWhole-change_bucket :
      (name : String) (change : BucketRecord → BucketRecord) (e : Engine D H)
      → IsWhole (engine_view D H e)
      → IsWhole (engine_view D H (change_bucket D H name change e).1)
  unfolding change_bucket get_bucket update_bucket or_fail engine_view view
  IsWhole-change_bucket name change e whole =
      elim (Option-cases (D.find_bucket (e.store.rows) name)) [
        | inl t ↦ rw (t, change_bucket, get_bucket) whole
        | inr (b, t) ↦ elim (Option-cases (D.find_bucket (e.store.rows) ((change b).name))) [
          | inl u ↦ rw (t, u, change_bucket, get_bucket, update_bucket) whole
          | inr (old, u) ↦
              rw (t, u, change_bucket, get_bucket, update_bucket)
                (put_bucket_whole (change b) e whole)
        ]
      ]

  IsWhole-set_bucket_quota :
      (name : String) (quota : ℕ) (e : Engine D H)
      → IsWhole (engine_view D H e)
      → IsWhole (engine_view D H (set_bucket_quota D H name quota e).1)
  unfolding set_bucket_quota get_bucket update_bucket or_fail engine_view view
  IsWhole-set_bucket_quota name quota e whole =
      elim (Option-cases (D.find_bucket (e.store.rows) name)) [
        | inl t ↦ rw (t, set_bucket_quota, get_bucket) whole
        | inr (b, t) ↦ elim (Result-cases ((set_quota name quota e.quotas).0)) [
          | inl (code, q) ↦ rw (t, q, set_bucket_quota, get_bucket) whole
          | inr (done, q) ↦ elim (Option-cases (D.find_bucket (e.store.rows) b.name)) [
            | inr (old, u) ↦
                rw (t, q, u, set_bucket_quota, get_bucket, update_bucket)
                  (put_bucket_whole (record b { quota_bytes = quota }) e whole)
            | inl u ↦
                elim (Result-cases
                  ((set_quota name b.quota_bytes (set_quota name quota e.quotas).1).0)) [
                    | inl (code, v) ↦
                        rw (t, q, u, v, set_bucket_quota, get_bucket, update_bucket) whole
                    | inr (back, v) ↦
                        rw (t, q, u, v, set_bucket_quota, get_bucket, update_bucket) whole
                  ]
          ]
        ]
      ]

  IsWhole-set_max_upload_bytes :
      (ceiling bytes : ℕ) (e : Engine D H)
      → IsWhole (engine_view D H e)
      → IsWhole (engine_view D H (set_max_upload_bytes D H ceiling bytes e).1)
  unfolding set_max_upload_bytes engine_view view
  IsWhole-set_max_upload_bytes ceiling bytes e whole = elim (Bool-cases (bytes == 0)) [
    | inl t ↦ rw (t, set_max_upload_bytes) whole
    | inr t ↦ elim (Bool-cases (ltb ceiling bytes)) [
      | inl u ↦ rw (t, u, set_max_upload_bytes) whole
      | inr u ↦ rw (t, u, set_max_upload_bytes) whole
    ]
  ]

  IsWhole-Step :
      (e f : Engine D H) → Step D H e f → IsWhole (engine_view D H e) → IsWhole (engine_view D H f)
  unfolding engine_view set_max_upload_bytes set_checkpointing reserve_space view
  IsWhole-Step _ _ (opens name quota now e) w = IsWhole-open_bucket name quota now e w
  IsWhole-Step _ _ (closes name e) w = IsWhole-close_bucket name e w
  IsWhole-Step _ _ (changes name change e) w = IsWhole-change_bucket name change e w
  IsWhole-Step _ _ (allots name quota e) w = IsWhole-set_bucket_quota name quota e w
  IsWhole-Step _ _ (reserves name bytes e) w = w
  IsWhole-Step _ _ (releases r e) w = w
  IsWhole-Step _ _ (limits ceiling bytes e) w = IsWhole-set_max_upload_bytes ceiling bytes e w
  IsWhole-Step _ _ (switches raised e) w = w
  IsWhole-Step _ _ (begins blob now e unheld) w = IsWhole-begin_write D law H blob now e w unheld
  IsWhole-Step _ _ (writes blob bytes e) w = IsWhole-write_bytes D law H blob bytes e w
  IsWhole-Step _ _ (drops blob e) w = IsWhole-drop_writer D law H blob e w
  IsWhole-Step _ _ (finishes q blob r now e) w = IsWhole-finish_write D law H q blob r now e w
  IsWhole-Step _ _ (removes bucket key now e) w = IsWhole-remove_object D law H bucket key now e w
  IsWhole-Step _ _ (begins_upload id q now e) w = IsWhole-begin_upload D law H id q now e w
  IsWhole-Step _ _ (finishes_part id number blob r checksum now e) w =
      IsWhole-finish_part D law H id number blob r checksum now e w
  IsWhole-Step _ _ (discards id now e) w = IsWhole-discard_upload D law H id now e w
  IsWhole-Step _ _ (finishes_upload id blob requested expected now e unheld) w =
      IsWhole-finish_upload D law H id blob requested expected now e w unheld
  IsWhole-Step _ _ (reclaims limit cutoff e) w = IsWhole-reclaim_older_than D law H limit cutoff e w

  -- Whatever methods run, one after the other, the rows and the payload tree stay in agreement: each
  -- object's and each part's payload is in the tree, with the size that the row records, no two rows
  -- share a payload, and no payload of a row is marked for reclamation or still being written. The
  -- blob ids that writers draw are assumed to be on no row.
  pub IsWhole-Run :
      (e f : Engine D H) → Run D H e f → IsWhole (engine_view D H e) → IsWhole (engine_view D H f)
  IsWhole-Run _ _ (stop e) w = w
  IsWhole-Run _ _ (step e f g s run) w = IsWhole-Run f g run (IsWhole-Step e f s w)

  read_object-answers :
      (e : Engine D H) (bucket : String) (key : Bytes)
      → IsWhole (engine_view D H e)
      → (read_object D H bucket key e ≡ ok none)
        ⊎ ((r : ObjectRecord) × ((content : Bytes) × ((read_object D H bucket key e
                  ≡ ok (some (r, content)))
                × (length content ≡ r.size))))
  unfolding read_object with_payload get_object engine_view view IsWhole Sits held_by object_claim
  read_object-answers e bucket key (sits, apart) =
      elim (Option-cases (D.find_object (e.store.rows) bucket key)) [
        | inl t ↦ inl (rw (t, read_object, get_object) refl)
        | inr (r, t) ↦
            let s = sits (object_at bucket key) r.blob_id r.size (ap object_claim t) in
            inr (
              r,
              (s.0.0, (rw (t, read_object, get_object) (ap (with_payload r) (s.0.1.0)), s.0.1.1)),
            )
      ]

  -- After any methods, run one after the other from an engine whose rows and payload tree agree, a
  -- read of any object finds no row, or finds a row and a payload of the size that the row records; it
  -- never fails.
  pub read_object-Run :
      (e f : Engine D H) (bucket : String) (key : Bytes)
      → Run D H e f
      → IsWhole (engine_view D H e)
      → (read_object D H bucket key f ≡ ok none)
        ⊎ ((r : ObjectRecord) × ((content : Bytes) × ((read_object D H bucket key f
                  ≡ ok (some (r, content)))
                × (length content ≡ r.size))))
  read_object-Run e f bucket key run whole =
      read_object-answers f bucket key (IsWhole-Run e f run whole)
