-- ===== src/Storage/Engine/Whole/Refines.antt =====
-- backend/src/storage/storage_engine.cpp: the engine as a map from keys to payloads, and what a
-- reclamation between the commit of a payload and its publication does.
use mono_bucket.Base.{
  ℕ, String, ◌≡◌, refl, sym, ◌∙◌, ap, ◌≢◌, ◌⊎◌, inl, inr, ◌&&◌, ◌||◌, ◌==◌, not, Option, none, some,
  [], ◌∷◌, if◌then◌else◌, ltb, Bytes, bytes_eq, str_eq, length, Dict, lookup, insert, subst,
  Bool-cases, ok, err,
}
use mono_bucket.Storage.Errors.{StorageErrorCode, internal, object_too_large}
use mono_bucket.Storage.Quota.{Reservation}
use mono_bucket.Storage.Records.{are_storable_header_values}
use mono_bucket.Storage.Metadata.{Database, IsLawful, ObjectRecord}
use mono_bucket.Storage.Engine.{
  Engine, Digests, PutRequest, Thrown, publish_write, publish_committed, finish_write, object_of,
  abandon_write, drop_writer, max_key_length, written_bytes,
}
use mono_bucket.Storage.Engine.Whole.{Holder, object_at, part_at, IsWhole, IsUnheld}
use mono_bucket.Storage.Engine.Whole.Rows.{held_by, view}
use mono_bucket.Storage.Engine.Whole.Keeps.{engine_view, apart_of}
use mono_bucket.Storage.Engine.Whole.Writers.{
  committed, summary, commit-committed, committed-IsReady, written_unheld, lookup-insert_same,
  lookup-insert_other,
}
use mono_bucket.Storage.Engine.Whole.Reads.{payload, payload_of, stored_at, payload-publish_write}

kept :
    (blob : String) (w : Bytes) (files : Dict Bytes) (claim : Option (String × ℕ))
    → ((b : String) (n : ℕ) → claim ≡ some (b, n) → blob ≢ b)
    → payload_of (insert blob w files) claim ≡ payload_of files claim
unfolding payload_of
kept blob w files none apart = refl
kept blob w files (some (b, n)) apart = lookup-insert_other blob b w files (apart b n refl)

module _ (D : Database) (law : IsLawful D) (H : Digests) where
  -- What a write may end in.
  unfoldable pub IsPutOrRefused : PutRequest → Bytes → Engine D H → Thrown D H ObjectRecord → Type 0
  unfolding payload stored_at engine_view
  IsPutOrRefused q written e out =
      (((code : StorageErrorCode) × (out.0 ≡ err code))
        × ((h : Holder) → payload (engine_view D H (out.1)) h ≡ payload (engine_view D H e) h))
      ⊎ (((o : ObjectRecord) × (out.0 ≡ ok o))
          × ((h : Holder)
              → payload (engine_view D H (out.1)) h
                ≡ stored_at q.bucket q.key written (payload (engine_view D H e)) h))

  payload-committed :
      (blob : String) (w : Bytes) (e : Engine D H) (h : Holder)
      → IsUnheld (engine_view D H e) blob
      → payload (engine_view D H (committed D law H blob w e)) h ≡ payload (engine_view D H e) h
  unfolding payload engine_view view committed
  payload-committed blob w e h unheld =
      kept blob w e.files (held_by D (e.store.rows) h)
        (λ b n is. (apart_of (engine_view D H e) (blob ∷ []) h b n (unheld, tt) is).0)

  stored_same :
      (bucket : String) (key written : Bytes) (f g : Holder → Option Bytes) (h : Holder)
      → ((k : Holder) → f k ≡ g k)
      → stored_at bucket key written f h ≡ stored_at bucket key written g h
  unfolding stored_at
  stored_same bucket key written f g (object_at b k) same =
      ap (λ o. if str_eq bucket b && bytes_eq key k then some written else o) (same (object_at b k))
  stored_same bucket key written f g (part_at i n) same = same (part_at i n)

  published_payload :
      (q : PutRequest) (blob : String) (r : Reservation) (now : ℕ) (e : Engine D H)
      (written : Bytes)
      → IsWhole (engine_view D H e)
      → lookup blob e.writers ≡ some written
      → IsPutOrRefused q written e (
          publish_write D H q
            (summary D law H blob written)
            r
            now
            (committed D law H blob written e))
  unfolding IsPutOrRefused summary committed
  published_payload q blob r now e written whole t =
      let unheld = written_unheld D law H e blob written whole t in
      let ready = committed-IsReady D law H blob written e whole t in
      elim (payload-publish_write D law H q (summary D law H blob written) r now
        (committed D law H blob written e) written (ready.0) (ready.1)
        (lookup-insert_same blob written e.files)) [
          | inl (refused, same) ↦
              inl (refused, λ h. same h ∙ payload-committed blob written e h unheld)
          | inr (done, put) ↦ inr (
            (object_of q (summary D law H blob written) now, done),
            λ h.
                put h
                ∙ stored_same q.bucket q.key written
                    (payload (engine_view D H (committed D law H blob written e)))
                    (payload (engine_view D H e)) h
                    (λ k. payload-committed blob written e k unheld),
          )
        ]

  -- finishWrite, on an engine whose rows and payload tree agree and a writer that is open: it is
  -- refused and every key reads as before, or it succeeds, the key of the request reads as the bytes
  -- that were written, and every other key as before.
  pub finish_write-refines :
      (q : PutRequest) (blob : String) (r : Reservation) (now : ℕ) (e : Engine D H)
      (written : Bytes)
      → IsWhole (engine_view D H e)
      → lookup blob e.writers ≡ some written
      → IsPutOrRefused q written e (finish_write D H q blob r now e)
  unfolding IsPutOrRefused finish_write abandon_write drop_writer engine_view view payload
      publish_committed
  finish_write-refines q blob r now e written whole t =
      elim (Bool-cases ((length q.key == 0) || ltb max_key_length (length q.key))) [
        | inl a ↦ rw (a, finish_write) (inl ((internal, refl), λ h. refl))
        | inr a ↦ elim (Bool-cases (not (are_storable_header_values q.content))) [
          | inl b ↦ rw (a, b, finish_write) (inl ((internal, refl), λ h. refl))
          | inr b ↦ elim (Bool-cases (ltb e.max_upload_bytes (written_bytes D H blob e))) [
            | inl c ↦ rw (a, b, c, finish_write) (inl ((object_too_large, refl), λ h. refl))
            | inr c ↦
                rw (a, b, c, finish_write)
                  (subst (λ x. IsPutOrRefused q written e (publish_committed D H q blob r now x))
                    (sym (commit-committed D law H blob written e t))
                    (published_payload q blob r now e written whole t))
          ]
        ]
      ]
