-- ===== src/Storage/Engine/Whole/Puts.antt =====
-- backend/src/storage/rocksdb_metadata_store.cpp: the batches that put an object or a part.
use mono_bucket.Base.{
  ℕ, ◌==◌, String, ◌≡◌, refl, sym, ◌∙◌, ap, ◌≢◌, ◌⊎◌, inl, inr, true, false, ◌&&◌, Option, none,
  some, if◌then◌else◌, Bytes, bytes_eq, bytes_eq_iff, Dict, arith, str_eq, subst, eq_iff,
}
use mono_bucket.Storage.Metadata.{
  Database, IsLawful, ObjectRecord, PartRecord, replay, object_after, part_after, orphan_after,
}
use mono_bucket.Storage.Metadata.Store.{
  put_batch, part_batch, released_marker, replaced_object, replaced_part,
}
use mono_bucket.Storage.Engine.Whole.{Holder, object_at, part_at}
use mono_bucket.Storage.Engine.Whole.Rows.{held_by, object_claim, part_claim, view, IsPut}

unfoldable pub released_object : Option ObjectRecord → Option String
unfolding replaced_object
released_object previous = (replaced_object previous).released_blob_id

unfoldable pub released_part : Option PartRecord → Option String
unfolding replaced_part
released_part previous = (replaced_part previous).released_blob_id

-- The test of a batch on the key of an object, and on that of a part.
pub same_object :
    (b c : String) (k l : Bytes)
    → ((object_at c l ≡ object_at b k) × ((str_eq b c && bytes_eq k l) ≡ true))
      ⊎ ((object_at c l ≢ object_at b k) × ((str_eq b c && bytes_eq k l) ≡ false))
same_object b c k l = grind (arith, eq_iff b c, bytes_eq_iff k l)

pub same_part :
    (i c : String) (m n : ℕ)
    → ((part_at c n ≡ part_at i m) × ((str_eq i c && (m == n)) ≡ true))
      ⊎ ((part_at c n ≢ part_at i m) × ((str_eq i c && (m == n)) ≡ false))
same_part i c m n = grind (arith, eq_iff i c)

claim_of_object :
    (o : ObjectRecord) (j : String) (n : ℕ)
    → object_claim (some o) ≡ some (j, n)
    → (j ≡ o.blob_id) × (n ≡ o.size)
unfolding object_claim
claim_of_object o j n e = grind arith

claim_of_part :
    (o : PartRecord) (j : String) (n : ℕ)
    → part_claim (some o) ≡ some (j, n)
    → (j ≡ o.blob_id) × (n ≡ o.size)
unfolding part_claim
claim_of_part o j n e = grind arith

released_object-claim :
    (previous : Option ObjectRecord) (j : String)
    → released_object previous ≡ some j
    → (n : ℕ) × (object_claim previous ≡ some (j, n))
unfolding object_claim released_object replaced_object
released_object-claim none j e = grind arith
released_object-claim (some r) j e = (r.size, grind arith)

released_part-claim :
    (previous : Option PartRecord) (j : String)
    → released_part previous ≡ some j
    → (n : ℕ) × (part_claim previous ≡ some (j, n))
unfolding part_claim released_part replaced_part
released_part-claim none j e = grind arith
released_part-claim (some r) j e = (r.size, grind arith)

module _ (D : Database) (law : IsLawful D) where
  pub find_object-put_batch :
      (s : D.State) (b : String) (o : ObjectRecord) (now : ℕ) (rel : Option String) (c : String)
      (k : Bytes)
      → D.find_object (D.write (put_batch b o now rel) s) c k
        ≡ (if str_eq b c && bytes_eq o.key k then some o else D.find_object s c k)
  unfolding put_batch released_marker replay object_after
  find_object-put_batch s b o now none c k = law.object-write (put_batch b o now none) s c k
  find_object-put_batch s b o now (some j) c k = law.object-write (put_batch b o now (some j)) s c k

  pub find_part-put_batch :
      (s : D.State) (b : String) (o : ObjectRecord) (now : ℕ) (rel : Option String) (i : String)
      (n : ℕ)
      → D.find_part (D.write (put_batch b o now rel) s) i n ≡ D.find_part s i n
  unfolding put_batch released_marker replay part_after
  find_part-put_batch s b o now none i n = law.part-write (put_batch b o now none) s i n
  find_part-put_batch s b o now (some j) i n = law.part-write (put_batch b o now (some j)) s i n

  -- Where a put leaves no marker.
  unmarked :
      (s : D.State) (b : String) (o : ObjectRecord) (now : ℕ) (rel : Option String) (j : String)
      → rel ≢ some j
      → (j ≡ o.blob_id) ⊎ (D.find_orphan s j ≡ none)
      → D.find_orphan (D.write (put_batch b o now rel) s) j ≡ none
  unfolding put_batch released_marker replay orphan_after
  unmarked s b o now none j other gone =
      law.orphan-write (put_batch b o now none) s j ∙ ground (arith, eq_iff o.blob_id j)
  unmarked s b o now (some i) j other gone =
      law.orphan-write (put_batch b o now (some i)) s j
      ∙ grind (arith, eq_iff o.blob_id j, eq_iff i j)

  held_after :
      (s : D.State) (b : String) (o : ObjectRecord) (now : ℕ) (rel : Option String) (h : Holder)
      (j : String) (n : ℕ)
      → held_by D (D.write (put_batch b o now rel) s) h ≡ some (j, n)
      → ((h ≡ object_at b o.key) × ((j ≡ o.blob_id) × (n ≡ o.size)))
        ⊎ ((h ≢ object_at b o.key) × (held_by D s h ≡ some (j, n)))
  unfolding held_by object_claim
  held_after s b o now rel (object_at c k) j n e =
      let step = ap object_claim (sym (find_object-put_batch s b o now rel c k)) ∙ e in
      elim (same_object b c o.key k) [
        | inl (same, t) ↦ inl (
          same,
          claim_of_object o j n (
              subst (λ x. object_claim (if x then some o else D.find_object s c k) ≡ some (j, n)) t
                step),
        )
        | inr (other, t) ↦ inr (
          other,
          subst (λ x. object_claim (if x then some o else D.find_object s c k) ≡ some (j, n)) t
              step,
        )
      ]
  held_after s b o now rel (part_at i m) j n e =
      inr ((λ same. grind arith), ap part_claim (sym (find_part-put_batch s b o now rel i m)) ∙ e)

  pub put_batch-IsPut :
      (s : D.State) (b : String) (o : ObjectRecord) (now : ℕ) (files writers : Dict Bytes)
      → IsPut
          (view D s files writers)
          (view D
            (D.write (put_batch b o now (released_object (D.find_object s b o.key))) s)
            files
            writers)
          (object_at b o.key)
          o.blob_id
          o.size
          (released_object (D.find_object s b o.key))
  unfolding IsPut view
  put_batch-IsPut s b o now files writers = (
    held_after s b o now (released_object (D.find_object s b o.key)),
    (
      unmarked s b o now (released_object (D.find_object s b o.key)),
      (released_object-claim (D.find_object s b o.key), (refl, refl)),
    ),
  )

  -- The same for a part.

  pub find_part-part_batch :
      (s : D.State) (i : String) (o : PartRecord) (now : ℕ) (rel : Option String) (c : String)
      (n : ℕ)
      → D.find_part (D.write (part_batch i o now rel) s) c n
        ≡ (if str_eq i c && (o.part_number == n) then some o else D.find_part s c n)
  unfolding part_batch released_marker replay part_after
  find_part-part_batch s i o now none c n = law.part-write (part_batch i o now none) s c n
  find_part-part_batch s i o now (some j) c n = law.part-write (part_batch i o now (some j)) s c n

  pub find_object-part_batch :
      (s : D.State) (i : String) (o : PartRecord) (now : ℕ) (rel : Option String) (c : String)
      (k : Bytes)
      → D.find_object (D.write (part_batch i o now rel) s) c k ≡ D.find_object s c k
  unfolding part_batch released_marker replay object_after
  find_object-part_batch s i o now none c k = law.object-write (part_batch i o now none) s c k
  find_object-part_batch s i o now (some j) c k =
      law.object-write (part_batch i o now (some j)) s c k

  part_unmarked :
      (s : D.State) (i : String) (o : PartRecord) (now : ℕ) (rel : Option String) (j : String)
      → rel ≢ some j
      → (j ≡ o.blob_id) ⊎ (D.find_orphan s j ≡ none)
      → D.find_orphan (D.write (part_batch i o now rel) s) j ≡ none
  unfolding part_batch released_marker replay orphan_after
  part_unmarked s i o now none j other gone =
      law.orphan-write (part_batch i o now none) s j ∙ ground (arith, eq_iff o.blob_id j)
  part_unmarked s i o now (some r) j other gone =
      law.orphan-write (part_batch i o now (some r)) s j
      ∙ grind (arith, eq_iff o.blob_id j, eq_iff r j)

  part_held_after :
      (s : D.State) (i : String) (o : PartRecord) (now : ℕ) (rel : Option String) (h : Holder)
      (j : String) (n : ℕ)
      → held_by D (D.write (part_batch i o now rel) s) h ≡ some (j, n)
      → ((h ≡ part_at i o.part_number) × ((j ≡ o.blob_id) × (n ≡ o.size)))
        ⊎ ((h ≢ part_at i o.part_number) × (held_by D s h ≡ some (j, n)))
  unfolding held_by part_claim
  part_held_after s i o now rel (part_at c k) j n e =
      let step = ap part_claim (sym (find_part-part_batch s i o now rel c k)) ∙ e in
      elim (same_part i c o.part_number k) [
        | inl (same, t) ↦ inl (
          same,
          claim_of_part o j n (
              subst (λ x. part_claim (if x then some o else D.find_part s c k) ≡ some (j, n)) t
                step),
        )
        | inr (other, t) ↦ inr (
          other,
          subst (λ x. part_claim (if x then some o else D.find_part s c k) ≡ some (j, n)) t step,
        )
      ]
  part_held_after s i o now rel (object_at b k) j n e =
      inr (
        (λ same. grind arith),
        ap object_claim (sym (find_object-part_batch s i o now rel b k)) ∙ e,
      )

  pub part_batch-IsPut :
      (s : D.State) (i : String) (o : PartRecord) (now : ℕ) (files writers : Dict Bytes)
      → IsPut
          (view D s files writers)
          (view D
            (D.write (part_batch i o now (released_part (D.find_part s i o.part_number))) s)
            files
            writers)
          (part_at i o.part_number)
          o.blob_id
          o.size
          (released_part (D.find_part s i o.part_number))
  unfolding IsPut view
  part_batch-IsPut s i o now files writers = (
    part_held_after s i o now (released_part (D.find_part s i o.part_number)),
    (
      part_unmarked s i o now (released_part (D.find_part s i o.part_number)),
      (released_part-claim (D.find_part s i o.part_number), (refl, refl)),
    ),
  )
