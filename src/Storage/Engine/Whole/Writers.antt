-- ===== src/Storage/Engine/Whole/Writers.antt =====
-- backend/src/storage/blob_store.cpp and storage_engine.cpp: the writers, on the rows and the payloads.
use mono_bucket.Base.{
  ℕ, String, ◌≡◌, refl, sym, ◌∙◌, ap, ◌≢◌, ◌⊎◌, inl, inr, none, some, [], ◌∷◌, ◌++◌, Bytes, length,
  Dict, lookup, insert, erase, lookup-insert, lookup-erase, arith, eq_iff, Option-cases, ok, err,
}
use mono_bucket.Storage.Metadata.{
  Database, IsLawful, put_orphan, replay, object_after, part_after, orphan_after,
}
use mono_bucket.Storage.Metadata.Store.{track_blob}
use mono_bucket.Storage.Errors.{internal}
use mono_bucket.Storage.Engine.{
  Engine, Digests, Committed, begin_write, write_bytes, drop_writer, commit,
}
use mono_bucket.Storage.Engine.Whole.{
  Holder, object_at, part_at, Sits, IsWhole, IsUnheld, IsWhole-shrink,
}
use mono_bucket.Storage.Engine.Whole.Rows.{held_by, object_claim, part_claim, view}
use mono_bucket.Storage.Engine.Whole.Keeps.{IsWhole-touch, engine_view}

-- A change at one blob id is not seen at another.
pub lookup-insert_other :
    (b j : String) (v : Bytes) (d : Dict Bytes) → b ≢ j → lookup j (insert b v d) ≡ lookup j d
lookup-insert_other b j v d apart = rw (lookup-insert b j v d) (ground (arith, eq_iff b j))

lookup-erase_other : (b j : String) (d : Dict Bytes) → b ≢ j → lookup j (erase b d) ≡ lookup j d
lookup-erase_other b j d apart = rw (lookup-erase b j d) (ground (arith, eq_iff b j))

erased : (b j : String) (d : Dict Bytes) → lookup j d ≡ none → lookup j (erase b d) ≡ none
erased b j d e = rw (lookup-erase b j d) (ground (arith, e))

pub lookup-insert_same :
    (b : String) (v : Bytes) (d : Dict Bytes) → lookup b (insert b v d) ≡ some v
lookup-insert_same b v d = rw (lookup-insert b b v d) (ground (arith, eq_iff b b))

pub lookup-erase_same : (b : String) (d : Dict Bytes) → lookup b (erase b d) ≡ none
lookup-erase_same b d = rw (lookup-erase b b d) (ground (arith, eq_iff b b))

writing_not : (w : Bytes) → some w ≡ none → ⊥
writing_not w e = grind arith

module _ (D : Database) (law : IsLawful D) (H : Digests) where
  -- What is being written, no row has.
  pub written_unheld :
      (e : Engine D H) (blob : String) (written : Bytes)
      → IsWhole (engine_view D H e)
      → lookup blob e.writers ≡ some written
      → IsUnheld (engine_view D H e) blob
  unfolding IsWhole IsUnheld Sits engine_view
  written_unheld e blob written whole found h n eq =
      writing_not written (sym found ∙ (whole.0 h blob n eq).1.1)

  pub IsWhole-drop_writer :
      (blob : String) (e : Engine D H)
      → IsWhole (engine_view D H e)
      → IsWhole (engine_view D H (drop_writer D H blob e))
  unfolding engine_view drop_writer IsWhole Sits
  IsWhole-drop_writer blob e (sits, apart) =
      IsWhole-shrink (engine_view D H e) (engine_view D H (drop_writer D H blob e)) (sits, apart)
        (λ h j n eq. let s = sits h j n eq in (eq, (s.0, (s.1.0, erased blob j e.writers (s.1.1)))))

  tracked_held :
      (s : D.State) (blob : String) (now : ℕ) (h : Holder)
      → held_by D (D.write (put_orphan blob now ∷ []) s) h ≡ held_by D s h
  unfolding held_by replay object_after part_after
  tracked_held s blob now (object_at b k) =
      ap object_claim (law.object-write (put_orphan blob now ∷ []) s b k)
  tracked_held s blob now (part_at i n) =
      ap part_claim (law.part-write (put_orphan blob now ∷ []) s i n)

  pub IsWhole-begin_write :
      (blob : String) (now : ℕ) (e : Engine D H)
      → IsWhole (engine_view D H e)
      → IsUnheld (engine_view D H e) blob
      → IsWhole (engine_view D H (begin_write D H blob now e).1)
  unfolding engine_view begin_write track_blob replay orphan_after view
  IsWhole-begin_write blob now e whole unheld = elim (Option-cases (lookup blob e.writers)) [
    | inr (w, t) ↦ rw (t, begin_write) whole
    | inl t ↦
        rw (t, begin_write)
          (IsWhole-touch (engine_view D H e)
            (view D (D.write (put_orphan blob now ∷ []) (e.store.rows)) e.files
              (insert blob [] e.writers))
            blob whole unheld (tracked_held (e.store.rows) blob now)
            (λ j apart. (
              refl,
              (
                (λ u.
                    law.orphan-write (put_orphan blob now ∷ []) (e.store.rows) j
                    ∙ ground (arith, eq_iff blob j)),
                (λ u. lookup-insert_other blob j [] e.writers apart ∙ u),
              ),
            )))
  ]

  pub IsWhole-write_bytes :
      (blob : String) (bytes : Bytes) (e : Engine D H)
      → IsWhole (engine_view D H e)
      → IsWhole (engine_view D H (write_bytes D H blob bytes e).1)
  unfolding engine_view write_bytes view
  IsWhole-write_bytes blob bytes e whole = elim (Option-cases (lookup blob e.writers)) [
    | inl t ↦ rw (t, write_bytes) whole
    | inr (w, t) ↦
        rw (t, write_bytes)
          (IsWhole-touch (engine_view D H e)
            (view D (e.store.rows) e.files (insert blob (w ++ bytes) e.writers)) blob whole
            (written_unheld e blob w whole t) (λ h. refl)
            (λ j apart. (
              refl,
              ((λ u. u), (λ u. lookup-insert_other blob j (w ++ bytes) e.writers apart ∙ u)),
            )))
  ]

  -- A payload that is committed and that no row has yet.
  unfoldable pub IsReady : Engine D H → String → ℕ → Type 0
  unfolding IsUnheld
  IsReady e blob size =
      IsUnheld (engine_view D H e) blob
      × (((content : Bytes) × ((lookup blob e.files ≡ some content) × (length content ≡ size)))
          × (lookup blob e.writers ≡ none))

  -- The engine after a commit, and what was committed.
  unfoldable pub committed : String → Bytes → Engine D H → Engine D H
  committed blob w e = record e { writers = erase blob e.writers; files = insert blob w e.files }

  unfoldable pub summary : String → Bytes → Committed
  summary blob w = record { blob_id = blob; size = length w; md5 = H.md5 w; sha256 = H.sha256 w }

  pub committed-IsReady :
      (blob : String) (w : Bytes) (e : Engine D H)
      → IsWhole (engine_view D H e)
      → lookup blob e.writers ≡ some w
      → IsWhole (engine_view D H (committed blob w e))
        × IsReady (committed blob w e) blob (length w)
  unfolding engine_view view IsReady IsUnheld committed
  committed-IsReady blob w e whole t =
      let unheld = written_unheld e blob w whole t in
      (
        IsWhole-touch (engine_view D H e) (engine_view D H (committed blob w e)) blob whole unheld
            (λ h. refl)
            (λ j apart.
              (lookup-insert_other blob j w e.files apart, ((λ u. u), erased blob j e.writers))),
        (
          unheld,
          ((w, (lookup-insert_same blob w e.files, refl)), lookup-erase_same blob e.writers),
        ),
      )

  pub commit-committed :
      (blob : String) (w : Bytes) (e : Engine D H)
      → lookup blob e.writers ≡ some w
      → commit D H blob e ≡ (ok (summary blob w), committed blob w e)
  unfolding commit committed summary
  commit-committed blob w e t = rw (t, commit) refl

  pub commit-cases :
      (blob : String) (e : Engine D H)
      → IsWhole (engine_view D H e)
      → (commit D H blob e ≡ (err internal, e))
        ⊎ ((c : Committed) × ((f : Engine D H) × ((commit D H blob e ≡ (ok c, f))
                × (IsWhole (engine_view D H f) × IsReady f c.blob_id c.size))))
  unfolding commit summary
  commit-cases blob e whole = elim (Option-cases (lookup blob e.writers)) [
    | inl t ↦ inl (rw (t, commit) refl)
    | inr (w, t) ↦ inr (
      summary blob w,
      (committed blob w e, (commit-committed blob w e t, committed-IsReady blob w e whole t)),
    )
  ]
