-- ===== src/Storage/Engine/Whole/Reads.antt =====
-- backend/src/storage/storage_engine.cpp: what is read after a write, a deletion and a reclamation.
use mono_bucket.Base.{
  ℕ, String, ◌≡◌, refl, sym, ◌∙◌, ap, ◌≢◌, ◌⊎◌, inl, inr, true, ◌&&◌, Option, none, some, List, [],
  ◌∷◌, if◌then◌else◌, Bytes, bytes_eq, str_eq, eq_iff, Dict, lookup, erase, lookup-erase, arith,
  any, subst, Bool-cases, Option-cases, Result-cases, ok, err, All,
}
use mono_bucket.Storage.Errors.{StorageErrorCode, no_such_bucket}
use mono_bucket.Storage.Quota.{QuotaLedger, Reservation, extend, release, record_object}
use mono_bucket.Storage.Metadata.{Database, IsLawful, ObjectRecord}
use mono_bucket.Storage.Metadata.Store.{
  Store, store_object, or_fail, put_batch, count_put, replaced_object,
}
use mono_bucket.Storage.Engine.{
  Engine, Digests, PutRequest, Committed, settle_write, publish_write, object_of, reclaim_released,
  reclaim_now, unlink_all, remove_files,
}
use mono_bucket.Storage.Engine.Whole.{
  Holder, object_at, part_at, View, IsWhole, IsUnheld, lookup-remove_files,
}
use mono_bucket.Storage.Engine.Whole.Rows.{held_by, object_claim, part_claim, view, IsPut-IsWhole}
use mono_bucket.Storage.Engine.Whole.Puts.{
  released_object, find_object-put_batch, find_part-put_batch, put_batch-IsPut,
}
use mono_bucket.Storage.Engine.Whole.Keeps.{engine_view, held-unlink_all, apart_of}
use mono_bucket.Storage.Engine.Whole.Writers.{IsReady}

-- A removed file is gone, and one that is not there stays away.
pub still_gone :
    (j : String) (blobs : List String) (files : Dict Bytes)
    → lookup j files ≡ none
    → lookup j (remove_files blobs files) ≡ none
unfolding remove_files
still_gone j [] files e = e
still_gone j (b ∷ blobs) files e =
    still_gone j blobs (erase b files) (rw (lookup-erase b j files) (ground (arith, e)))

pub removed_gone :
    (j : String) (blobs : List String) (files : Dict Bytes)
    → any (str_eq j) blobs ≡ true
    → lookup j (remove_files blobs files) ≡ none
unfolding remove_files
removed_gone j [] files e = grind arith
removed_gone j (b ∷ blobs) files e = elim (Bool-cases (str_eq j b)) [
  | inl t ↦
      still_gone j blobs (erase b files)
        (rw (lookup-erase b j files) (grind (arith, eq_iff j b, eq_iff b j)))
  | inr t ↦ removed_gone j blobs (erase b files) (ground arith)
]

-- The payload that a row leads to.
unfoldable pub payload_of : Dict Bytes → Option (String × ℕ) → Option Bytes
payload_of files none = none
payload_of files (some (blob, size)) = lookup blob files

unfoldable pub payload : View → Holder → Option Bytes
unfolding payload_of
payload v h = payload_of v.files (v.held h)

-- A map of payloads with one more, under an object's key.
unfoldable pub stored_at : String → Bytes → Bytes → (Holder → Option Bytes) → Holder → Option Bytes
stored_at bucket key content before (object_at b k) =
    if str_eq bucket b && bytes_eq key k then some content else before (object_at b k)
stored_at bucket key content before (part_at i n) = before (part_at i n)

kept_file :
    (blobs : List String) (files : Dict Bytes) (claim : Option (String × ℕ))
    → ((n : ℕ) (b : String) → claim ≡ some (b, n) → All (λ x. x ≢ b) blobs)
    → payload_of (remove_files blobs files) claim ≡ payload_of files claim
unfolding payload_of
kept_file blobs files none apart = refl
kept_file blobs files (some (b, n)) apart = lookup-remove_files b blobs files (apart n b refl)

module _ (D : Database) (law : IsLawful D) (H : Digests) where
  -- Reclaiming what no row has changes no payload.
  pub payload-unlink_all :
      (blobs : List String) (e : Engine D H) (h : Holder)
      → All (IsUnheld (engine_view D H e)) blobs
      → payload (engine_view D H (unlink_all D H blobs e)) h ≡ payload (engine_view D H e) h
  unfolding payload engine_view view unlink_all
  payload-unlink_all blobs e h unheld =
      ap (λ c. payload_of (remove_files blobs e.files) c) (held-unlink_all D law H blobs e h)
      ∙ kept_file blobs e.files (held_by D (e.store.rows) h)
          (λ n b is. apart_of (engine_view D H e) blobs h b n unheld is)

  pub payload-reclaim_released :
      (released : Option String) (e : Engine D H) (h : Holder)
      → ((j : String) → released ≡ some j → IsUnheld (engine_view D H e) j)
      → payload (engine_view D H (reclaim_released D H released e)) h
        ≡ payload (engine_view D H e) h
  unfolding reclaim_released reclaim_now
  payload-reclaim_released none e h unheld = refl
  payload-reclaim_released (some j) e h unheld = elim (Bool-cases e.checkpointing) [
    | inl t ↦
        subst
          (λ b.
            payload (engine_view D H (if b then e else unlink_all D H (j ∷ []) e)) h
            ≡ payload (engine_view D H e) h)
          (sym t) refl
    | inr t ↦
        subst
          (λ b.
            payload (engine_view D H (if b then e else unlink_all D H (j ∷ []) e)) h
            ≡ payload (engine_view D H e) h)
          (sym t) (payload-unlink_all (j ∷ []) e h (unheld j refl, tt))
  ]

  -- The engine after a publication: the object's row is written, and what it replaces is reclaimed.
  unfoldable pub after_publication :
      PutRequest → Committed → ℕ → Engine D H → Store D → QuotaLedger → Engine D H
  unfolding released_object
  after_publication q c now e s l =
      reclaim_released D H (released_object (D.find_object (e.store.rows) q.bucket q.key))
        (record e { store = s; quotas = l })

  pub publish_write-cases :
      (q : PutRequest) (c : Committed) (r : Reservation) (now : ℕ) (e : Engine D H)
      → ((code : StorageErrorCode) × ((l : QuotaLedger) × (publish_write D H q c r now e
              ≡ (err code, record e { quotas = l }))))
        ⊎ ((s : Store D) × ((l : QuotaLedger) × ((publish_write D H q c r now e
                  ≡ (ok (object_of q c now), after_publication q c now e s l))
                × (s.rows
                    ≡ D.write
                        (put_batch q.bucket
                          (object_of q c now)
                          now
                          (released_object (D.find_object (e.store.rows) q.bucket q.key)))
                        (e.store.rows)))))
  unfolding publish_write settle_write store_object or_fail after_publication released_object
      replaced_object object_of
  publish_write-cases q c r now e =
      let extended = extend r q.bucket c.size e.quotas in
      let previous = D.find_object (e.store.rows) q.bucket q.key in
      let object = object_of q c now in
      let batch = put_batch q.bucket object now (released_object previous) in
      elim (Result-cases (extended.0)) [
        | inl (code, t) ↦ inl (code, ((release r extended.1).1, rw (t, publish_write) refl))
        | inr (claim, t) ↦ elim (Option-cases (D.find_bucket (e.store.rows) q.bucket)) [
          | inl u ↦ inl (
            no_such_bucket,
            (
              (release claim extended.1).1,
              rw (t, u, publish_write, settle_write, store_object) refl,
            ),
          )
          | inr (b, u) ↦ inr (
            record {
              rows = D.write batch (e.store.rows);
              usage = count_put previous object e.store.usage;
            },
            (
              record_object q.bucket claim c.size ((replaced_object previous).replaced_bytes)
                  extended.1,
              (rw (t, u, publish_write, settle_write, store_object) refl, refl),
            ),
          )
        ]
      ]

  -- The payloads after the batch of a publication.
  payload-put_batch :
      (s : D.State) (files writers : Dict Bytes) (bucket : String) (o : ObjectRecord) (now : ℕ)
      (released : Option String) (content : Bytes) (h : Holder)
      → lookup o.blob_id files ≡ some content
      → payload (view D (D.write (put_batch bucket o now released) s) files writers) h
        ≡ stored_at bucket o.key content (payload (view D s files writers)) h
  unfolding payload payload_of view held_by object_claim stored_at
  payload-put_batch s files writers bucket o now released content (object_at b k) found =
      ap (λ r. payload_of files (object_claim r))
        (find_object-put_batch D law s bucket o now released b k)
      ∙ elim (Bool-cases (str_eq bucket b && bytes_eq o.key k)) [
        | inl t ↦ rw t found
        | inr t ↦ rw t refl
      ]
  payload-put_batch s files writers bucket o now released content (part_at i n) found =
      ap (λ r. payload_of files (part_claim r))
        (find_part-put_batch D law s bucket o now released i n)

  released_unheld :
      (q : PutRequest) (c : Committed) (now : ℕ) (e : Engine D H)
      → IsWhole (engine_view D H e)
      → IsReady D law H e c.blob_id c.size
      → let released = released_object (D.find_object (e.store.rows) q.bucket q.key) in
        (j : String)
        → released ≡ some j
        → IsUnheld
            (view D
              (D.write (put_batch q.bucket (object_of q c now) now released) (e.store.rows))
              e.files
              e.writers)
            j
  unfolding IsReady engine_view object_of
  released_unheld q c now e whole (unheld, (stored, unwritten)) =
      let released = released_object (D.find_object (e.store.rows) q.bucket q.key) in
      (IsPut-IsWhole (engine_view D H e)
        (view D (D.write (put_batch q.bucket (object_of q c now) now released) (e.store.rows))
          e.files e.writers)
        (object_at q.bucket q.key) c.blob_id c.size released whole unheld stored unwritten
        (put_batch-IsPut D law (e.store.rows) q.bucket (object_of q c now) now e.files e.writers)).1

  -- A publication of a payload that is in the tree and that no row has: it is refused and nothing is
  -- read differently, or it succeeds and the payload is what is read under the object's key.
  pub payload-publish_write :
      (q : PutRequest) (c : Committed) (r : Reservation) (now : ℕ) (e : Engine D H)
      (content : Bytes)
      → IsWhole (engine_view D H e)
      → IsReady D law H e c.blob_id c.size
      → lookup c.blob_id e.files ≡ some content
      → let out = publish_write D H q c r now e in
        (((code : StorageErrorCode) × (out.0 ≡ err code))
          × ((h : Holder) → payload (engine_view D H (out.1)) h ≡ payload (engine_view D H e) h))
        ⊎ ((out.0 ≡ ok (object_of q c now))
            × ((h : Holder)
                → payload (engine_view D H (out.1)) h
                  ≡ stored_at q.bucket q.key content (payload (engine_view D H e)) h))
  unfolding engine_view after_publication object_of view
  payload-publish_write q c r now e content whole ready found =
      elim (publish_write-cases q c r now e) [
        | inl (code, (l, t)) ↦
            inl ((code, ap (λ x. x.0) t), (λ h. ap (λ x. payload (engine_view D H (x.1)) h) t))
        | inr (s, (l, (t, rows))) ↦ inr (
          ap (λ x. x.0) t,
          λ h.
              ap (λ x. payload (engine_view D H (x.1)) h) t
              ∙ payload-reclaim_released
                  (released_object (D.find_object (e.store.rows) q.bucket q.key))
                  (record e { store = s; quotas = l }) h
                  (subst
                    (λ x.
                      (j : String)
                      → released_object (D.find_object (e.store.rows) q.bucket q.key) ≡ some j
                      → IsUnheld (view D x e.files e.writers) j)
                    (sym rows) (released_unheld q c now e whole ready))
              ∙ ap (λ x. payload (view D x e.files e.writers) h) rows
              ∙ payload-put_batch (e.store.rows) e.files e.writers q.bucket (object_of q c now) now
                  (released_object (D.find_object (e.store.rows) q.bucket q.key)) content h found,
        )
      ]
