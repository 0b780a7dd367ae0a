-- ===== src/Storage/Engine/Whole.antt =====
-- backend/src/storage/storage_engine.cpp: what the rows say of the payloads, and when the payload tree
-- and the rows agree.
pub mod Rows
pub mod Puts
pub mod Drops
pub mod Keeps
pub mod Writers
pub mod Objects
pub mod Parts
pub mod Completion
pub mod Run
pub mod Reads
pub mod Refines
pub mod Race
use mono_bucket.Base.{
  ℕ, ◌==◌, String, ◌≡◌, refl, sym, ◌∙◌, ap, ◌≢◌, ◌⊎◌, inl, inr, Bool, true, false, ◌&&◌, Option,
  none, some, List, [], ◌∷◌, if◌then◌else◌, Bytes, length, Dict, lookup, insert, erase, arith, All,
  str_eq, subst, lookup-insert, lookup-erase, eq_iff, Option-cases,
}
use mono_bucket.Storage.Engine.{remove_files}

-- A row that references a payload.
pub data Holder : Type 0 where
  object_at : String → Bytes → Holder
  part_at : String → ℕ → Holder

-- The payload and the size that each row records, the reclamation markers, the payload tree and
-- the temporaries.
pub record View : Type 0 where
  pub held : Holder → Option (String × ℕ)
  pub orphan : String → Option ℕ
  pub files : Dict Bytes
  pub writers : Dict Bytes

-- The payload is in the tree with this size, and neither a reclaimer nor a writer has it.
unfoldable pub Sits : View → String → ℕ → Type 0
Sits v blob size =
    ((content : Bytes) × ((lookup blob v.files ≡ some content) × (length content ≡ size)))
    × ((v.orphan blob ≡ none) × (lookup blob v.writers ≡ none))

-- Each row's payload is in the tree, and no two rows share one.
unfoldable pub IsWhole : View → Type 0
unfolding Sits
IsWhole v =
    ((h : Holder) (blob : String) (size : ℕ) → v.held h ≡ some (blob, size) → Sits v blob size)
    × ((h k : Holder) (blob : String) (m n : ℕ)
        → v.held h ≡ some (blob, m)
        → v.held k ≡ some (blob, n)
        → h ≡ k)

unfoldable pub IsUnheld : View → String → Type 0
IsUnheld v blob = (h : Holder) (size : ℕ) → v.held h ≢ some (blob, size)

-- A step that gives one row a payload that no row had, and otherwise only drops rows.
pub IsWhole-step :
    (v w : View) (at : Holder) (blob : String)
    → IsWhole v
    → IsUnheld v blob
    → ((h : Holder) (j : String) (n : ℕ) → w.held h ≡ some (j, n) → Sits w j n)
    → ((h : Holder) (j : String) (n : ℕ)
        → w.held h ≡ some (j, n)
        → ((h ≡ at) × (j ≡ blob)) ⊎ (v.held h ≡ some (j, n)))
    → IsWhole w
unfolding IsWhole IsUnheld
IsWhole-step v w at blob (sits, apart) unheld sits' origin = (
  sits',
  λ h k j m n eh ek. elim (origin h j m eh) [
    | inl (h_at, j_new) ↦ elim (origin k j n ek) [
      | inl (k_at, _) ↦ h_at ∙ sym k_at
      | inr old ↦ elim (unheld k n (subst (λ b. v.held k ≡ some (b, n)) j_new old)) [ ]
    ]
    | inr old ↦ elim (origin k j n ek) [
      | inl (_, j_new) ↦ elim (unheld h m (subst (λ b. v.held h ≡ some (b, m)) j_new old)) [ ]
      | inr old' ↦ apart h k j m n old old'
    ]
  ],
)

-- A step that only drops rows, and leaves alone the payloads of the rows it keeps.
pub IsWhole-shrink :
    (v w : View)
    → IsWhole v
    → ((h : Holder) (j : String) (n : ℕ)
        → w.held h ≡ some (j, n)
        → (v.held h ≡ some (j, n)) × Sits w j n)
    → IsWhole w
unfolding IsWhole
IsWhole-shrink v w (sits, apart) kept = (
  λ h j n e. (kept h j n e).1,
  λ h k j m n eh ek. apart h k j m n ((kept h j m eh).0) ((kept k j n ek).0),
)

-- A file that is not among the removed ones stays.
pub lookup-remove_files :
    (j : String) (blobs : List String) (files : Dict Bytes)
    → All (λ b. b ≢ j) blobs
    → lookup j (remove_files blobs files) ≡ lookup j files
unfolding remove_files
lookup-remove_files j [] files apart = refl
lookup-remove_files j (b ∷ blobs) files (h, apart) =
    lookup-remove_files j blobs (erase b files) apart ∙ other
  where
    other : lookup j (erase b files) ≡ lookup j files
    other = rw (lookup-erase b j files) (ground (arith, eq_iff b j))
