-- ===== src/Storage/Engine/Whole/Drops.antt =====
-- backend/src/storage/rocksdb_metadata_store.cpp: the batches that delete an object, or all the parts
-- of an upload.
use mono_bucket.Base.{
  ℕ, String, ◌≡◌, refl, sym, ◌∙◌, ap, ◌≢◌, inl, inr, Option, none, some, List, [], ◌∷◌,
  if◌then◌else◌, Bytes, Dict, lookup, arith, str_eq, subst, eq_iff, Bool-cases, All,
}
use mono_bucket.Storage.Metadata.{
  Database, IsLawful, ObjectRecord, PartRecord, UploadRecord, delete_object, put_orphan, replay,
  object_after, part_after, orphan_after,
}
use mono_bucket.Storage.Metadata.Store.{release_parts, end_upload, blobs_of}
use mono_bucket.Storage.Engine.Whole.{
  Holder, object_at, part_at, View, Sits, IsWhole, IsUnheld, IsWhole-shrink,
}
use mono_bucket.Storage.Engine.Whole.Rows.{held_by, object_claim, part_claim, view}
use mono_bucket.Storage.Engine.Whole.Puts.{same_object, same_part}

-- What a drop makes of the rows: some go, and their payloads are marked.
unfoldable pub IsDrop : View → View → List String → Type 0
IsDrop v w blobs =
    ((h : Holder) (j : String) (n : ℕ)
      → w.held h ≡ some (j, n)
      → (v.held h ≡ some (j, n)) × All (λ b. b ≢ j) blobs)
    × (((j : String) → All (λ b. b ≢ j) blobs → v.orphan j ≡ none → w.orphan j ≡ none)
        × ((v.files ≡ w.files) × (v.writers ≡ w.writers)))

unheld_blobs :
    (w : View) (blobs : List String)
    → ((h : Holder) (j : String) (n : ℕ) → w.held h ≡ some (j, n) → All (λ b. b ≢ j) blobs)
    → All (IsUnheld w) blobs
unfolding IsUnheld
unheld_blobs w [] apart = tt
unheld_blobs w (b ∷ blobs) apart =
    (λ h n e. (apart h b n e).0 refl, unheld_blobs w blobs (λ h j n e. (apart h j n e).1))

pub IsDrop-IsWhole :
    (v w : View) (blobs : List String)
    → IsWhole v
    → IsDrop v w blobs
    → IsWhole w × All (IsUnheld w) blobs
unfolding IsWhole IsDrop Sits
IsDrop-IsWhole v w blobs (sits, apart) (kept, (orphans, (same_files, same_writers))) = (
  IsWhole-shrink v w (sits, apart)
      (λ h j n e.
        let k = kept h j n e in
        let s = sits h j n (k.0) in
        (
          k.0,
          (
            (s.0.0, (ap (λ f. lookup j f) (sym same_files) ∙ s.0.1.0, s.0.1.1)),
            (orphans j (k.1) (s.1.0), ap (λ f. lookup j f) (sym same_writers) ∙ s.1.1),
          ),
        )),
  unheld_blobs w blobs (λ h j n e. (kept h j n e).1),
)

abbrev Others : String → ℕ → List PartRecord → Type 0
Others i n parts = All (λ r. part_at i n ≢ part_at i r.part_number) parts

not_none : (r : PartRecord) → none ≡ some r → ⊥
not_none r e = grind arith

-- What the rows of a released upload make of a part of it, of a part of another upload, of an object
-- and of a marker.
own_parts :
    (u : UploadRecord) (now : ℕ) (parts : List PartRecord) (n : ℕ) (old : Option PartRecord)
    (r : PartRecord)
    → replay (λ c. part_after c u.upload_id n) (end_upload u now parts) old ≡ some r
    → (old ≡ some r) × Others u.upload_id n parts
unfolding replay part_after end_upload release_parts
own_parts u now [] n old r e = (e, tt)
own_parts u now (p ∷ parts) n old r e = elim (same_part u.upload_id u.upload_id p.part_number n) [
  | inl (same, t) ↦
      let later = own_parts u now parts n none r (
        subst
          (λ x.
            replay (λ c. part_after c u.upload_id n) (end_upload u now parts)
              (if x then none else old)
            ≡ some r)
          t e) in
      elim (not_none r (later.0)) [ ]
  | inr (other, t) ↦
      let later = own_parts u now parts n old r (
        subst
          (λ x.
            replay (λ c. part_after c u.upload_id n) (end_upload u now parts)
              (if x then none else old)
            ≡ some r)
          t e) in
      (later.0, (other, later.1))
]

other_parts :
    (u : UploadRecord) (now : ℕ) (parts : List PartRecord) (i : String) (n : ℕ)
    (old : Option PartRecord)
    → u.upload_id ≢ i
    → replay (λ c. part_after c i n) (end_upload u now parts) old ≡ old
unfolding replay part_after end_upload release_parts
other_parts u now [] i n old apart = refl
other_parts u now (p ∷ parts) i n old apart = elim (Bool-cases (str_eq u.upload_id i)) [
  | inl t ↦ elim (apart ((eq_iff u.upload_id i).0 t)) [ ]
  | inr t ↦ rw (t, replay) (other_parts u now parts i n old apart)
]

same_objects :
    (u : UploadRecord) (now : ℕ) (parts : List PartRecord) (b : String) (k : Bytes)
    (old : Option ObjectRecord)
    → replay (λ c. object_after c b k) (end_upload u now parts) old ≡ old
unfolding replay object_after end_upload release_parts
same_objects u now [] b k old = refl
same_objects u now (p ∷ parts) b k old = same_objects u now parts b k old

same_markers :
    (u : UploadRecord) (now : ℕ) (parts : List PartRecord) (j : String) (old : Option ℕ)
    → All (λ b. b ≢ j) (blobs_of parts)
    → replay (λ c. orphan_after c j) (end_upload u now parts) old ≡ old
unfolding replay orphan_after end_upload release_parts blobs_of
same_markers u now [] j old apart = refl
same_markers u now (p ∷ parts) j old (h, apart) = elim (Bool-cases (str_eq p.blob_id j)) [
  | inl t ↦ elim (h ((eq_iff p.blob_id j).0 t)) [ ]
  | inr t ↦ rw (t, replay) (same_markers u now parts j old apart)
]

-- The payloads of listed parts are those of other rows only where the rows are the same.
listed_apart :
    (v : View) (i : String) (parts : List PartRecord) (h : Holder) (j : String) (n : ℕ)
    → IsWhole v
    → All (λ r. v.held (part_at i r.part_number) ≡ some (r.blob_id, r.size)) parts
    → v.held h ≡ some (j, n)
    → All (λ r. h ≢ part_at i r.part_number) parts
    → All (λ b. b ≢ j) (blobs_of parts)
unfolding IsWhole blobs_of
listed_apart v i [] h j n whole found e others = tt
listed_apart v i (r ∷ parts) h j n whole (f, found) e (other, others) = (
  λ same. other (
      whole.1 h (part_at i r.part_number) j n r.size e
        (subst (λ b. v.held (part_at i r.part_number) ≡ some (b, r.size)) same f)),
  listed_apart v i parts h j n whole found e others,
)

no_clash : (i : String) (m : ℕ) (b : String) (k : Bytes) → part_at i m ≡ object_at b k → ⊥
no_clash i m b k e = grind arith

module _ (D : Database) (law : IsLawful D) where
  deleted_held :
      (s : D.State) (b : String) (k : Bytes) (r : ObjectRecord) (now : ℕ)
      (files writers : Dict Bytes)
      → IsWhole (view D s files writers)
      → D.find_object s b k ≡ some r
      → (h : Holder) (j : String) (n : ℕ)
      → held_by D (D.write (delete_object b k ∷ put_orphan r.blob_id now ∷ []) s) h ≡ some (j, n)
      → (held_by D s h ≡ some (j, n)) × All (λ b. b ≢ j) (r.blob_id ∷ [])
  unfolding IsWhole view held_by object_claim replay object_after part_after
  deleted_held s b k r now files writers whole found (object_at c l) j n e =
      let batch = delete_object b k ∷ put_orphan r.blob_id now ∷ [] in
      let step = ap object_claim (sym (law.object-write batch s c l)) ∙ e in
      elim (same_object b c k l) [
        | inl (same, t) ↦
            let gone =
              subst (λ x. object_claim (if x then none else D.find_object s c l) ≡ some (j, n)) t
                step in
            grind arith
        | inr (other, t) ↦
            let kept =
              subst (λ x. object_claim (if x then none else D.find_object s c l) ≡ some (j, n)) t
                step in
            (
              kept,
              (
                (λ same. other (
                    whole.1 (object_at c l) (object_at b k) j n r.size kept
                      (ap object_claim found ∙ ap (λ i. some (i, r.size)) same))),
                tt,
              ),
            )
      ]
  deleted_held s b k r now files writers whole found (part_at i m) j n e =
      let batch = delete_object b k ∷ put_orphan r.blob_id now ∷ [] in
      let kept = ap part_claim (sym (law.part-write batch s i m)) ∙ e in
      (
        kept,
        (
          (λ same. no_clash i m b k (
              whole.1 (part_at i m) (object_at b k) j n r.size kept
                (ap object_claim found ∙ ap (λ x. some (x, r.size)) same))),
          tt,
        ),
      )

  pub delete_object-IsDrop :
      (s : D.State) (b : String) (k : Bytes) (r : ObjectRecord) (now : ℕ)
      (files writers : Dict Bytes)
      → IsWhole (view D s files writers)
      → D.find_object s b k ≡ some r
      → IsDrop
          (view D s files writers)
          (view D (D.write (delete_object b k ∷ put_orphan r.blob_id now ∷ []) s) files writers)
          (r.blob_id ∷ [])
  unfolding IsDrop IsWhole view held_by object_claim replay object_after part_after orphan_after
  delete_object-IsDrop s b k r now files writers whole found = (
    deleted_held s b k r now files writers whole found,
    (
      λ j apart e.
          law.orphan-write (delete_object b k ∷ put_orphan r.blob_id now ∷ []) s j
          ∙ grind (arith, eq_iff r.blob_id j),
      (refl, refl),
    ),
  )

  claimed :
      (s : D.State) (i : String) (parts : List PartRecord)
      → All (λ r. D.find_part s i r.part_number ≡ some r) parts
      → All (λ r. held_by D s (part_at i r.part_number) ≡ some (r.blob_id, r.size)) parts
  unfolding held_by part_claim
  claimed s i [] found = tt
  claimed s i (r ∷ parts) (f, found) = (ap part_claim f, claimed s i parts found)

  no_parts :
      (b : String) (k : Bytes) (i : String) (parts : List PartRecord)
      → All (λ r. object_at b k ≢ part_at i r.part_number) parts
  no_parts b k i [] = tt
  no_parts b k i (r ∷ parts) = ((λ e. no_clash i r.part_number b k (sym e)), no_parts b k i parts)

  not_own :
      (i c : String) (m : ℕ) (parts : List PartRecord)
      → i ≢ c
      → All (λ r. part_at c m ≢ part_at i r.part_number) parts
  not_own i c m [] apart = tt
  not_own i c m (r ∷ parts) apart = ((λ e. grind arith), not_own i c m parts apart)

  part_claimed :
      (o : Option PartRecord) (j : String) (n : ℕ)
      → part_claim o ≡ some (j, n)
      → (r : PartRecord) × ((o ≡ some r) × (part_claim (some r) ≡ some (j, n)))
  unfolding part_claim
  part_claimed none j n e = grind arith
  part_claimed (some r) j n e = (r, (refl, e))

  own_held :
      (s : D.State) (u : UploadRecord) (now : ℕ) (parts : List PartRecord) (i : String) (m : ℕ)
      (j : String) (n : ℕ)
      → u.upload_id ≡ i
      → part_claim (replay (λ c. part_after c i m) (end_upload u now parts) (D.find_part s i m))
        ≡ some (j, n)
      → (part_claim (D.find_part s i m) ≡ some (j, n))
        × All (λ r. part_at i m ≢ part_at u.upload_id r.part_number) parts
  own_held s u now parts i m j n own =
      subst
        (λ i.
          part_claim (replay (λ c. part_after c i m) (end_upload u now parts) (D.find_part s i m))
            ≡ some (j, n)
          → (part_claim (D.find_part s i m) ≡ some (j, n))
            × All (λ r. part_at i m ≢ part_at u.upload_id r.part_number) parts)
        own
        (λ e.
          let (r, (is, claim)) =
            part_claimed
              (replay (λ c. part_after c u.upload_id m) (end_upload u now parts)
                (D.find_part s u.upload_id m))
              j n e in
          let (was, others) = own_parts u now parts m (D.find_part s u.upload_id m) r is in
          (ap part_claim was ∙ claim, others))

  -- Which rows are left when an upload is over.
  rest_held :
      (s : D.State) (u : UploadRecord) (now : ℕ) (parts : List PartRecord) (h : Holder) (j : String)
      (n : ℕ)
      → held_by D (D.write (end_upload u now parts) s) h ≡ some (j, n)
      → (held_by D s h ≡ some (j, n)) × All (λ r. h ≢ part_at u.upload_id r.part_number) parts
  unfolding held_by
  rest_held s u now parts (object_at b k) j n e = (
    ap object_claim (
          sym (
            law.object-write (end_upload u now parts) s b k
            ∙ same_objects u now parts b k (D.find_object s b k)))
        ∙ e,
    no_parts b k u.upload_id parts,
  )
  rest_held s u now parts (part_at i m) j n e =
      let after = replay (λ c. part_after c i m) (end_upload u now parts) (D.find_part s i m) in
      let step : part_claim after ≡ some (j, n) =
        ap part_claim (sym (law.part-write (end_upload u now parts) s i m)) ∙ e in
      elim (Bool-cases (str_eq u.upload_id i)) [
        | inr t ↦
            let apart : u.upload_id ≢ i = λ same. grind (arith, eq_iff u.upload_id i) in
            (
              ap part_claim (sym (other_parts u now parts i m (D.find_part s i m) apart)) ∙ step,
              not_own u.upload_id i m parts apart,
            )
        | inl t ↦ own_held s u now parts i m j n ((eq_iff u.upload_id i).0 t) step
      ]

  pub end_upload-IsDrop :
      (s : D.State) (u : UploadRecord) (now : ℕ) (parts : List PartRecord)
      (files writers : Dict Bytes)
      → IsWhole (view D s files writers)
      → All (λ r. D.find_part s u.upload_id r.part_number ≡ some r) parts
      → IsDrop
          (view D s files writers)
          (view D (D.write (end_upload u now parts) s) files writers)
          (blobs_of parts)
  unfolding IsDrop view
  end_upload-IsDrop s u now parts files writers whole found = (
    λ h j n e.
        let kept = rest_held s u now parts h j n e in
        (
          kept.0,
          listed_apart (view D s files writers) u.upload_id parts h j n whole
              (claimed s u.upload_id parts found) (kept.0) (kept.1),
        ),
    (
      λ j apart e.
          law.orphan-write (end_upload u now parts) s j
          ∙ same_markers u now parts j (D.find_orphan s j) apart
          ∙ e,
      (refl, refl),
    ),
  )
