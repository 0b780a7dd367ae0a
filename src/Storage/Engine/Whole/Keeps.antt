-- ===== src/Storage/Engine/Whole/Keeps.antt =====
-- backend/src/storage/storage_engine.cpp: reclamation and the writers, on the rows and the payloads.
use mono_bucket.Base.{
  ℕ, zero, suc, String, ◌≡◌, refl, sym, ◌∙◌, ap, ◌≢◌, inl, inr, Option, none, some, List, [], ◌∷◌,
  if◌then◌else◌, ltb, Bytes, Dict, lookup, arith, str_eq, subst, Bool-cases, All,
}
use mono_bucket.Storage.Metadata.{
  Database, IsLawful, ObjectRecord, PartRecord, replay, object_after, part_after, orphan_after,
}
use mono_bucket.Storage.Metadata.Store.{forget_batch, forget_orphans, aged, list_orphans}
use mono_bucket.Storage.Engine.{
  Engine, Digests, remove_files, unlink_all, reclaim_now, reclaim_released, reclaim_older_than,
}
use mono_bucket.Storage.Engine.Whole.{
  Holder, object_at, part_at, View, Sits, IsWhole, IsUnheld, IsWhole-shrink, lookup-remove_files,
}
use mono_bucket.Storage.Engine.Whole.Rows.{held_by, object_claim, part_claim, view}

-- No batch of markers touches a row that references a payload.
forgotten_object :
    (blobs : List String) (b : String) (k : Bytes) (old : Option ObjectRecord)
    → replay (λ c. object_after c b k) (forget_batch blobs) old ≡ old
unfolding replay object_after forget_batch
forgotten_object [] b k old = refl
forgotten_object (j ∷ blobs) b k old = forgotten_object blobs b k old

forgotten_part :
    (blobs : List String) (i : String) (n : ℕ) (old : Option PartRecord)
    → replay (λ c. part_after c i n) (forget_batch blobs) old ≡ old
unfolding replay part_after forget_batch
forgotten_part [] i n old = refl
forgotten_part (j ∷ blobs) i n old = forgotten_part blobs i n old

still_unmarked :
    (blobs : List String) (j : String)
    → replay (λ c. orphan_after c j) (forget_batch blobs) none ≡ none
unfolding replay orphan_after forget_batch
still_unmarked [] j = refl
still_unmarked (b ∷ blobs) j = elim (Bool-cases (str_eq b j)) [
  | inl t ↦ rw (t, replay) (still_unmarked blobs j)
  | inr t ↦ rw (t, replay) (still_unmarked blobs j)
]

not_marked : (t : ℕ) → some t ≡ none → ⊥
not_marked t e = grind arith

pub apart_of :
    (v : View) (blobs : List String) (h : Holder) (j : String) (n : ℕ)
    → All (IsUnheld v) blobs
    → v.held h ≡ some (j, n)
    → All (λ b. b ≢ j) blobs
unfolding IsUnheld
apart_of v [] h j n unheld e = tt
apart_of v (b ∷ blobs) h j n (u, unheld) e =
    ((λ same. u h n (e ∙ ap (λ x. some (x, n)) (sym same))), apart_of v blobs h j n unheld e)

-- A step that touches nothing but a payload that no row has.
pub IsWhole-touch :
    (v w : View) (blob : String)
    → IsWhole v
    → IsUnheld v blob
    → ((h : Holder) → w.held h ≡ v.held h)
    → ((j : String)
        → blob ≢ j
        → (lookup j w.files ≡ lookup j v.files)
          × ((v.orphan j ≡ none → w.orphan j ≡ none)
              × (lookup j v.writers ≡ none → lookup j w.writers ≡ none)))
    → IsWhole w
unfolding IsWhole Sits
IsWhole-touch v w blob (sits, apart) unheld same rest =
    IsWhole-shrink v w (sits, apart)
      (λ h j n e.
        let was = sym (same h) ∙ e in
        let s = sits h j n was in
        let t = rest j ((apart_of v (blob ∷ []) h j n (unheld, tt) was).0) in
        (was, ((s.0.0, (t.0 ∙ s.0.1.0, s.0.1.1)), (t.1.0 (s.1.0), t.1.1 (s.1.1)))))

module _ (D : Database) (H : Digests) where
  unfoldable pub engine_view : Engine D H → View
  unfolding view
  engine_view e = view D (e.store.rows) e.files e.writers

module _ (D : Database) (law : IsLawful D) (H : Digests) where
  -- Forgetting markers and removing files that no row references.
  forgotten_held :
      (s : D.State) (blobs : List String) (h : Holder)
      → held_by D (D.write (forget_batch blobs) s) h ≡ held_by D s h
  unfolding held_by
  forgotten_held s blobs (object_at b k) = ap object_claim (
      law.object-write (forget_batch blobs) s b k
      ∙ forgotten_object blobs b k (D.find_object s b k))
  forgotten_held s blobs (part_at i n) =
      ap part_claim
        (law.part-write (forget_batch blobs) s i n ∙ forgotten_part blobs i n (D.find_part s i n))

  forgotten_whole :
      (s : D.State) (files writers : Dict Bytes) (blobs : List String)
      → IsWhole (view D s files writers)
      → All (IsUnheld (view D s files writers)) blobs
      → IsWhole (view D (D.write (forget_batch blobs) s) (remove_files blobs files) writers)
  unfolding IsWhole Sits view
  forgotten_whole s files writers blobs (sits, apart) unheld =
      IsWhole-shrink (view D s files writers)
        (view D (D.write (forget_batch blobs) s) (remove_files blobs files) writers) (sits, apart)
        (λ h j n e.
          let was = sym (forgotten_held s blobs h) ∙ e in
          let t = sits h j n was in
          let others = apart_of (view D s files writers) blobs h j n unheld was in
          (
            was,
            (
              (t.0.0, (lookup-remove_files j blobs files others ∙ t.0.1.0, t.0.1.1)),
              (
                law.orphan-write (forget_batch blobs) s j
                    ∙ ap (λ o. replay (λ c. orphan_after c j) (forget_batch blobs) o) (t.1.0)
                    ∙ still_unmarked blobs j,
                t.1.1,
              ),
            ),
          ))

  IsWhole-unlink_all :
      (blobs : List String) (e : Engine D H)
      → IsWhole (engine_view D H e)
      → All (IsUnheld (engine_view D H e)) blobs
      → IsWhole (engine_view D H (unlink_all D H blobs e))
  unfolding engine_view unlink_all forget_orphans remove_files
  IsWhole-unlink_all [] e whole unheld = whole
  IsWhole-unlink_all (b ∷ blobs) e whole unheld =
      forgotten_whole (e.store.rows) e.files e.writers (b ∷ blobs) whole unheld

  pub IsWhole-reclaim_now :
      (blobs : List String) (e : Engine D H)
      → IsWhole (engine_view D H e)
      → All (IsUnheld (engine_view D H e)) blobs
      → IsWhole (engine_view D H (reclaim_now D H blobs e))
  unfolding reclaim_now
  IsWhole-reclaim_now blobs e whole unheld = elim (Bool-cases e.checkpointing) [
    | inl t ↦
        subst (λ b. IsWhole (engine_view D H (if b then e else unlink_all D H blobs e))) (sym t)
          whole
    | inr t ↦
        subst (λ b. IsWhole (engine_view D H (if b then e else unlink_all D H blobs e))) (sym t)
          (IsWhole-unlink_all blobs e whole unheld)
  ]

  pub IsWhole-reclaim_released :
      (released : Option String) (e : Engine D H)
      → IsWhole (engine_view D H e)
      → ((j : String) → released ≡ some j → IsUnheld (engine_view D H e) j)
      → IsWhole (engine_view D H (reclaim_released D H released e))
  unfolding reclaim_released
  IsWhole-reclaim_released none e whole unheld = whole
  IsWhole-reclaim_released (some j) e whole unheld =
      IsWhole-reclaim_now (j ∷ []) e whole (unheld j refl, tt)

  -- What a marker is on, no row has.
  marked_unheld :
      (e : Engine D H) (rows : List (String × ℕ)) (limit cutoff : ℕ)
      → IsWhole (engine_view D H e)
      → All (λ r. D.find_orphan (e.store.rows) (r.0) ≡ some (r.1)) rows
      → All (IsUnheld (engine_view D H e)) (aged limit cutoff rows)
  unfolding aged IsUnheld IsWhole Sits engine_view
  marked_unheld e rows zero cutoff whole found = tt
  marked_unheld e [] (suc limit) cutoff whole found = tt
  marked_unheld e ((b, t) ∷ rows) (suc limit) cutoff whole (f, found) =
      elim (Bool-cases (ltb cutoff t)) [
        | inl p ↦ rw p (marked_unheld e rows (suc limit) cutoff whole found)
        | inr p ↦ rw p (
          (λ h n eq. let unmarked = (whole.0 h b n eq).1.0 in not_marked t (sym f ∙ unmarked)),
          marked_unheld e rows limit cutoff whole found,
        )
      ]

  pub IsWhole-reclaim_older_than :
      (limit cutoff : ℕ) (e : Engine D H)
      → IsWhole (engine_view D H e)
      → IsWhole (engine_view D H (reclaim_older_than D H limit cutoff e).1)
  unfolding reclaim_older_than list_orphans engine_view
  IsWhole-reclaim_older_than limit cutoff e whole =
      let blobs = aged limit cutoff (D.scan_orphans (e.store.rows)) in
      elim (Bool-cases e.checkpointing) [
        | inl t ↦ rw t whole
        | inr t ↦ rw t (
            IsWhole-unlink_all blobs e whole (
              marked_unheld e (D.scan_orphans (e.store.rows)) limit cutoff whole
                (law.orphans_found (e.store.rows))))
      ]

  pub held-unlink_all :
      (blobs : List String) (e : Engine D H) (h : Holder)
      → (engine_view D H (unlink_all D H blobs e)).held h ≡ (engine_view D H e).held h
  unfolding engine_view view unlink_all forget_orphans
  held-unlink_all [] e h = refl
  held-unlink_all (b ∷ blobs) e h = forgotten_held (e.store.rows) (b ∷ blobs) h

  -- Reclamation changes no row that references a payload.
  pub held-reclaim_released :
      (released : Option String) (e : Engine D H) (h : Holder)
      → (engine_view D H (reclaim_released D H released e)).held h ≡ (engine_view D H e).held h
  unfolding reclaim_released reclaim_now
  held-reclaim_released none e h = refl
  held-reclaim_released (some j) e h = elim (Bool-cases e.checkpointing) [
    | inl t ↦
        subst
          (λ b.
            (engine_view D H (if b then e else unlink_all D H (j ∷ []) e)).held h
            ≡ (engine_view D H e).held h)
          (sym t) refl
    | inr t ↦
        subst
          (λ b.
            (engine_view D H (if b then e else unlink_all D H (j ∷ []) e)).held h
            ≡ (engine_view D H e).held h)
          (sym t) (held-unlink_all (j ∷ []) e h)
  ]
