-- ===== src/Storage/Engine/Whole/Rows.antt =====
-- backend/src/storage/rocksdb_metadata_store.cpp: what a batch makes of the rows that reference
-- payloads.
use mono_bucket.Base.{
  ℕ, String, ◌≡◌, sym, ◌∙◌, ap, ◌≢◌, ◌⊎◌, inl, inr, Option, none, some, Bytes, length, Dict, lookup,
  subst,
}
use mono_bucket.Storage.Metadata.{Database, ObjectRecord, PartRecord}
use mono_bucket.Storage.Engine.Whole.{
  Holder, object_at, part_at, View, Sits, IsWhole, IsUnheld, IsWhole-step,
}

unfoldable pub object_claim : Option ObjectRecord → Option (String × ℕ)
object_claim none = none
object_claim (some r) = some (r.blob_id, r.size)

unfoldable pub part_claim : Option PartRecord → Option (String × ℕ)
part_claim none = none
part_claim (some r) = some (r.blob_id, r.size)

module _ (D : Database) where
  unfoldable pub held_by : D.State → Holder → Option (String × ℕ)
  unfolding object_claim part_claim
  held_by s (object_at b k) = object_claim (D.find_object s b k)
  held_by s (part_at i n) = part_claim (D.find_part s i n)

  unfoldable pub view : D.State → Dict Bytes → Dict Bytes → View
  unfolding held_by
  view s files writers = record {
    held = held_by s;
    orphan = D.find_orphan s;
    files = files;
    writers = writers;
  }

-- What a put makes of the rows: `at` has the payload `blob` in place of `released`.
unfoldable pub IsPut : View → View → Holder → String → ℕ → Option String → Type 0
IsPut v w at blob size released =
    ((h : Holder) (j : String) (n : ℕ)
      → w.held h ≡ some (j, n)
      → ((h ≡ at) × ((j ≡ blob) × (n ≡ size))) ⊎ ((h ≢ at) × (v.held h ≡ some (j, n))))
    × (((j : String) → released ≢ some j → (j ≡ blob) ⊎ (v.orphan j ≡ none) → w.orphan j ≡ none)
        × (((j : String) → released ≡ some j → (n : ℕ) × (v.held at ≡ some (j, n)))
            × ((v.files ≡ w.files) × (v.writers ≡ w.writers))))

-- A put of a payload that is in the tree, and that no row had, keeps the rows and the tree in
-- agreement, and no row has the released payload any more.
pub IsPut-IsWhole :
    (v w : View) (at : Holder) (blob : String) (size : ℕ) (released : Option String)
    → IsWhole v
    → IsUnheld v blob
    → (content : Bytes) × ((lookup blob v.files ≡ some content) × (length content ≡ size))
    → lookup blob v.writers ≡ none
    → IsPut v w at blob size released
    → IsWhole w × ((j : String) → released ≡ some j → IsUnheld w j)
unfolding IsWhole IsUnheld IsPut Sits
IsPut-IsWhole v w at blob size released (sits, apart) unheld (content, (found, long)) unwritten
      (origin, (orphans, (old, (same_files, same_writers)))) =
    (
      IsWhole-step v w at blob (sits, apart) unheld
          (λ h j n e. elim (origin h j n e) [
            | inl (_, (j_new, n_new)) ↦ (
              (
                content,
                (
                  ap (λ f. lookup j f) (sym same_files) ∙ ap (λ b. lookup b v.files) j_new ∙ found,
                  long ∙ sym n_new,
                ),
              ),
              (
                orphans j (λ r. elim (clash j r j_new) [ ]) (inl j_new),
                ap (λ f. lookup j f) (sym same_writers)
                    ∙ ap (λ b. lookup b v.writers) j_new
                    ∙ unwritten,
              ),
            )
            | inr (apart_h, e') ↦
                let s = sits h j n e' in
                (
                  (s.0.0, (ap (λ f. lookup j f) (sym same_files) ∙ s.0.1.0, s.0.1.1)),
                  (
                    orphans j (λ r. apart_h (apart h at j n ((old j r).0) e' ((old j r).1)))
                        (inr (s.1.0)),
                    ap (λ f. lookup j f) (sym same_writers) ∙ s.1.1,
                  ),
                )
          ])
          (λ h j n e. elim (origin h j n e) [
            | inl (h_at, (j_new, _)) ↦ inl (h_at, j_new)
            | inr (_, e') ↦ inr e'
          ]),
      λ j r h n e. elim (origin h j n e) [
        | inl (_, (j_new, _)) ↦ clash j r j_new
        | inr (apart_h, e') ↦ apart_h (apart h at j n ((old j r).0) e' ((old j r).1))
      ],
    )
  where
    clash : (j : String) → released ≡ some j → j ≡ blob → ⊥
    clash j r e =
        unheld at ((old j r).0) (subst (λ b. v.held at ≡ some (b, (old j r).0)) e ((old j r).1))
