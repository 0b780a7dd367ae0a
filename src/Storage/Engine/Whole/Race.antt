-- ===== src/Storage/Engine/Whole/Race.antt =====
-- backend/src/storage/storage_engine.cpp: a reclamation between the commit of a payload and its
-- publication.
use mono_bucket.Base.{
  String, ◌≡◌, refl, sym, ◌∙◌, ap, inl, inr, true, false, Option, none, some, [], ◌∷◌,
  if◌then◌else◌, ℕ, Bytes, bytes_eq, bytes_eq_iff, str_eq, eq_iff, lookup, arith, any, subst,
  Bool-cases, ok, err, ◌&&◌,
}
use mono_bucket.Storage.Errors.{StorageErrorCode, no_such_key}
use mono_bucket.Storage.Quota.{QuotaLedger, Reservation}
use mono_bucket.Storage.Metadata.{Database, IsLawful, ObjectRecord}
use mono_bucket.Storage.Metadata.Store.{Store, get_object, list_orphans, put_batch}
use mono_bucket.Storage.Engine.{
  Engine, Digests, PutRequest, Committed, publish_write, object_of, reclaim_released, reclaim_now,
  unlink_all, reclaim_older_than, read_object, with_payload,
}
use mono_bucket.Storage.Engine.Whole.{object_at}
use mono_bucket.Storage.Engine.Whole.Rows.{held_by, object_claim, view}
use mono_bucket.Storage.Engine.Whole.Puts.{find_object-put_batch, released_object}
use mono_bucket.Storage.Engine.Whole.Keeps.{engine_view, held-reclaim_released}
use mono_bucket.Storage.Engine.Whole.Reads.{
  after_publication, publish_write-cases, removed_gone, still_gone,
}

not_both : {A : Type 0} (code : StorageErrorCode) (o : A) → err code ≡ ok o → ⊥
not_both code o e = grind arith

claimed_row :
    (o : Option ObjectRecord) (j : String) (n : ℕ)
    → object_claim o ≡ some (j, n)
    → (r : ObjectRecord) × ((o ≡ some r) × (r.blob_id ≡ j))
unfolding object_claim
claimed_row none j n e = grind arith
claimed_row (some r) j n e = (r, (refl, grind arith))

module _ (D : Database) (law : IsLawful D) (H : Digests) where
  gone_after_release :
      (released : Option String) (j : String) (e : Engine D H)
      → lookup j e.files ≡ none
      → lookup j ((reclaim_released D H released e).files) ≡ none
  unfolding reclaim_released reclaim_now unlink_all
  gone_after_release none j e gone = gone
  gone_after_release (some b) j e gone = elim (Bool-cases e.checkpointing) [
    | inl t ↦
        subst (λ x. lookup j ((if x then e else unlink_all D H (b ∷ []) e).files) ≡ none) (sym t)
          gone
    | inr t ↦
        subst (λ x. lookup j ((if x then e else unlink_all D H (b ∷ []) e).files) ≡ none) (sym t)
          (still_gone j (b ∷ []) e.files gone)
  ]

  reclaimed_gone :
      (limit cutoff : ℕ) (j : String) (e : Engine D H)
      → e.checkpointing ≡ false
      → any (str_eq j) (list_orphans D limit cutoff e.store) ≡ true
      → lookup j ((reclaim_older_than D H limit cutoff e).1.files) ≡ none
  unfolding reclaim_older_than unlink_all
  reclaimed_gone limit cutoff j e running listed =
      rw (running, reclaim_older_than)
        (removed_gone j (list_orphans D limit cutoff e.store) e.files listed)

  published_claim :
      (q : PutRequest) (c : Committed) (now : ℕ) (e : Engine D H) (s : Store D) (l : QuotaLedger)
      → s.rows
        ≡ D.write
            (put_batch q.bucket
              (object_of q c now)
              now
              (released_object (D.find_object (e.store.rows) q.bucket q.key)))
            (e.store.rows)
      → object_claim
          (D.find_object ((after_publication D law H q c now e s l).store.rows) q.bucket q.key)
        ≡ some (c.blob_id, c.size)
  unfolding after_publication engine_view view held_by object_of object_claim
  published_claim q c now e s l rows =
      let released = released_object (D.find_object (e.store.rows) q.bucket q.key) in
      held-reclaim_released D law H released (record e { store = s; quotas = l })
        (object_at q.bucket q.key)
      ∙ ap (λ x. object_claim (D.find_object x q.bucket q.key)) rows
      ∙ ap object_claim (
          find_object-put_batch D law (e.store.rows) q.bucket (object_of q c now) now released
            q.bucket q.key
          ∙ own)
    where
      own :
          (if str_eq q.bucket q.bucket && bytes_eq q.key q.key
            then some (object_of q c now)
            else D.find_object (e.store.rows) q.bucket q.key)
          ≡ some (object_of q c now)
      own = rw ((eq_iff q.bucket q.bucket).1 refl, (bytes_eq_iff q.key q.key).1 refl) refl

  published_gone :
      (q : PutRequest) (c : Committed) (now : ℕ) (e : Engine D H) (s : Store D) (l : QuotaLedger)
      → lookup c.blob_id e.files ≡ none
      → lookup c.blob_id ((after_publication D law H q c now e s l).files) ≡ none
  unfolding after_publication
  published_gone q c now e s l gone =
      gone_after_release (released_object (D.find_object (e.store.rows) q.bucket q.key)) c.blob_id
        (record e { store = s; quotas = l }) gone

  read_missing :
      (e : Engine D H) (bucket : String) (key : Bytes) (j : String) (n : ℕ)
      → object_claim (D.find_object (e.store.rows) bucket key) ≡ some (j, n)
      → lookup j e.files ≡ none
      → read_object D H bucket key e ≡ err no_such_key
  unfolding read_object get_object with_payload
  read_missing e bucket key j n claim gone =
      let (r, (is, blob)) = claimed_row (D.find_object (e.store.rows) bucket key) j n claim in
      rw (is, read_object, get_object)
        (ap (with_payload r) (ap (λ b. lookup b e.files) blob ∙ gone))

  -- No checkpoint is running, a payload is committed and its marker is among those that a
  -- reclamation pass lists, and the pass runs before the payload is published: where the publication
  -- succeeds, a read of the object fails for want of its payload.
  pub reclaim_race :
      (q : PutRequest) (c : Committed) (r : Reservation) (now limit cutoff : ℕ) (e : Engine D H)
      (o : ObjectRecord)
      → e.checkpointing ≡ false
      → any (str_eq c.blob_id) (list_orphans D limit cutoff e.store) ≡ true
      → (publish_write D H q c r now (reclaim_older_than D H limit cutoff e).1).0 ≡ ok o
      → read_object D H q.bucket q.key
          (publish_write D H q c r now (reclaim_older_than D H limit cutoff e).1).1
        ≡ err no_such_key
  reclaim_race q c r now limit cutoff e o running listed done =
      let f = (reclaim_older_than D H limit cutoff e).1 in
      elim (publish_write-cases D law H q c r now f) [
        | inl (code, (l, t)) ↦ elim (not_both code o (sym (ap (λ x. x.0) t) ∙ done)) [ ]
        | inr (s, (l, (t, rows))) ↦
            ap (λ x. read_object D H q.bucket q.key x.1) t
            ∙ read_missing (after_publication D law H q c now f s l) q.bucket q.key c.blob_id c.size
                (published_claim q c now f s l rows)
                (published_gone q c now f s l
                  (reclaimed_gone limit cutoff c.blob_id e running listed))
      ]
