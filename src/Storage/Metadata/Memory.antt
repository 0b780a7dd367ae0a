-- ===== src/Storage/Metadata/Memory.antt =====
-- A database that is the list of the changes written so far, each row being what they leave of it:
-- the behaviour that the metadata store relies on can be had.
use mono_bucket.Base.{
  ℕ, ◌==◌, String, ◌≡◌, refl, sym, ◌∙◌, ap, ◌≢◌, ◌⊎◌, inl, inr, Bool, true, false, ◌&&◌, Option,
  none, some, List, [], ◌∷◌, ◌++◌, if◌then◌else◌, Bytes, bytes_eq, bytes_eq_iff, str_eq, eq_iff,
  arith, subst, All, Bool-cases, Option-cases,
}
use mono_bucket.Storage.Metadata.{
  Database, IsLawful, Change, WriteBatch, ObjectRecord, PartRecord, replay, bucket_after,
  object_after, upload_after, mark_after, part_after, orphan_after, put_object, delete_object,
  delete_upload_by_key, put_part, put_orphan, put_upload_by_key,
}

replay-written {ℓ} :
    {A : Type ℓ} (step : Change → A → A) (a b : WriteBatch) (old : A)
    → replay step (a ++ b) old ≡ replay step b (replay step a old)
unfolding replay
replay-written step [] b old = refl
replay-written step (c ∷ a) b old = replay-written step a b (step c old)

unfoldable pub row_of_object : WriteBatch → String → Bytes → Option ObjectRecord
unfolding replay object_after
row_of_object s b k = replay (λ c. object_after c b k) s none

-- What an iterator yields: the row at each key that was ever put under the prefix, where one is
-- left. (A key put twice is yielded twice, where RocksDB yields it once.)

unfoldable pub add_object :
    WriteBatch → String → Change → List (Bytes × ObjectRecord) → List (Bytes × ObjectRecord)
add_object s b (put_object c k r) rows =
    if str_eq c b
    then elim (row_of_object s b k) [ none ↦ rows | some kept ↦ (k, kept) ∷ rows ]
    else rows
add_object s b _ rows = rows

unfoldable pub listed_objects : WriteBatch → String → WriteBatch → List (Bytes × ObjectRecord)
unfolding add_object
listed_objects s b [] = []
listed_objects s b (c ∷ rest) = add_object s b c (listed_objects s b rest)

object_step :
    (c : Change) (b : String) (k : Bytes)
    → (object_after c b k none ≡ none) ⊎ ((r : ObjectRecord) × (c ≡ put_object b k r))
unfolding object_after
object_step (put_object c l r) b k = elim (Bool-cases (str_eq c b && bytes_eq l k)) [
  | inl t ↦ inr (r, grind (arith, eq_iff c b, bytes_eq_iff l k))
  | inr t ↦ inl (rw t refl)
]
object_step (delete_object c l) b k = elim (Bool-cases (str_eq c b && bytes_eq l k)) [
  | inl t ↦ inl (rw t refl)
  | inr t ↦ inl (rw t refl)
]
object_step _ b k = inl refl

cons_not {ℓ} : {A : Type ℓ} (x : A) (xs : List A) → (x ∷ xs) ≢ []
cons_not x xs e = grind arith

listed_later :
    (s : WriteBatch) (b : String) (c : Change) (rows : List (Bytes × ObjectRecord))
    → rows ≢ []
    → add_object s b c rows ≢ []
unfolding add_object
listed_later s b (put_object c k r) rows some_row = elim (Bool-cases (str_eq c b)) [
  | inr t ↦ rw t some_row
  | inl t ↦ elim (Option-cases (row_of_object s b k)) [
    | inl u ↦ rw (t, u) some_row
    | inr (kept, u) ↦ rw (t, u) (cons_not (k, kept) rows)
  ]
]
listed_later s b _ rows some_row = some_row

listed_now :
    (s : WriteBatch) (b : String) (k : Bytes) (kept p : ObjectRecord)
    (rows : List (Bytes × ObjectRecord))
    → row_of_object s b k ≡ some kept
    → add_object s b (put_object b k p) rows ≢ []
unfolding add_object
listed_now s b k kept p rows e = rw ((eq_iff b b).1 refl, e) (cons_not (k, kept) rows)

found_listed :
    (s : WriteBatch) (b : String) (k : Bytes) (kept : ObjectRecord) (rest : WriteBatch)
    (r : ObjectRecord)
    → row_of_object s b k ≡ some kept
    → replay (λ c. object_after c b k) rest none ≡ some r
    → listed_objects s b rest ≢ []
unfolding replay listed_objects
found_listed s b k kept [] r e found = grind arith
found_listed s b k kept (c ∷ rest) r e found = elim (object_step c b k) [
  | inl same ↦ listed_later s b c (listed_objects s b rest) (
      found_listed s b k kept rest r e
        (subst (λ o. replay (λ c. object_after c b k) rest o ≡ some r) same found))
  | inr (p, put) ↦
      subst (λ c. add_object s b c (listed_objects s b rest) ≢ []) (sym put)
        (listed_now s b k kept p (listed_objects s b rest) e)
]

unfoldable pub read_mark : WriteBatch → String → Bytes → String → Bool
unfolding replay mark_after
read_mark s b k i = replay (λ c. mark_after c b k i) s false

unfoldable pub add_mark :
    WriteBatch → String → Change → List (Bytes × String) → List (Bytes × String)
add_mark s b (put_upload_by_key c k i) rows =
    if str_eq c b && read_mark s b k i then (k, i) ∷ rows else rows
add_mark s b _ rows = rows

unfoldable pub listed_marks : WriteBatch → String → WriteBatch → List (Bytes × String)
unfolding add_mark
listed_marks s b [] = []
listed_marks s b (c ∷ rest) = add_mark s b c (listed_marks s b rest)

mark_step :
    (c : Change) (b : String) (k : Bytes) (i : String)
    → (mark_after c b k i false ≡ false) ⊎ (c ≡ put_upload_by_key b k i)
unfolding mark_after
mark_step (put_upload_by_key c l j) b k i =
    elim (Bool-cases (str_eq c b && (bytes_eq l k && str_eq j i))) [
      | inl t ↦ inr (grind (arith, eq_iff c b, bytes_eq_iff l k, eq_iff j i))
      | inr t ↦ inl (rw t refl)
    ]
mark_step (delete_upload_by_key c l j) b k i =
    elim (Bool-cases (str_eq c b && (bytes_eq l k && str_eq j i))) [
      | inl t ↦ inl (rw t refl)
      | inr t ↦ inl (rw t refl)
    ]
mark_step _ b k i = inl refl

marked_later :
    (s : WriteBatch) (b : String) (c : Change) (rows : List (Bytes × String))
    → rows ≢ []
    → add_mark s b c rows ≢ []
unfolding add_mark
marked_later s b (put_upload_by_key c k i) rows some_row =
    elim (Bool-cases (str_eq c b && read_mark s b k i)) [
      | inr t ↦ rw t some_row
      | inl t ↦ rw t (cons_not (k, i) rows)
    ]
marked_later s b _ rows some_row = some_row

marked_now :
    (s : WriteBatch) (b : String) (k : Bytes) (i : String) (rows : List (Bytes × String))
    → read_mark s b k i ≡ true
    → add_mark s b (put_upload_by_key b k i) rows ≢ []
unfolding add_mark
marked_now s b k i rows e = rw ((eq_iff b b).1 refl, e) (cons_not (k, i) rows)

mark_listed_in :
    (s : WriteBatch) (b : String) (k : Bytes) (i : String) (rest : WriteBatch)
    → read_mark s b k i ≡ true
    → replay (λ c. mark_after c b k i) rest false ≡ true
    → listed_marks s b rest ≢ []
unfolding replay listed_marks
mark_listed_in s b k i [] e found = grind arith
mark_listed_in s b k i (c ∷ rest) e found = elim (mark_step c b k i) [
  | inl same ↦ marked_later s b c (listed_marks s b rest) (
      mark_listed_in s b k i rest e
        (subst (λ o. replay (λ c. mark_after c b k i) rest o ≡ true) same found))
  | inr put ↦
      subst (λ c. add_mark s b c (listed_marks s b rest) ≢ []) (sym put)
        (marked_now s b k i (listed_marks s b rest) e)
]

unfoldable pub read_part : WriteBatch → String → ℕ → Option PartRecord
unfolding replay part_after
read_part s i n = replay (λ c. part_after c i n) s none

unfoldable pub add_part : WriteBatch → String → Change → List PartRecord → List PartRecord
add_part s i (put_part j r) rows = elim (read_part s i r.part_number) [
  | none ↦ rows
  | some kept ↦ if str_eq j i && (kept.part_number == r.part_number) then kept ∷ rows else rows
]
add_part s i _ rows = rows

unfoldable pub listed_parts : WriteBatch → String → WriteBatch → List PartRecord
unfolding add_part
listed_parts s i [] = []
listed_parts s i (c ∷ rest) = add_part s i c (listed_parts s i rest)

abbrev IsFound : WriteBatch → String → List PartRecord → Type 0
unfolding read_part
IsFound s i rows = All (λ r. read_part s i r.part_number ≡ some r) rows

add_part-IsFound :
    (s : WriteBatch) (i : String) (c : Change) (rows : List PartRecord)
    → IsFound s i rows
    → IsFound s i (add_part s i c rows)
unfolding add_part IsFound read_part
add_part-IsFound s i (put_part j r) rows found = elim (Option-cases (read_part s i r.part_number)) [
  | inl u ↦ rw (u, add_part) found
  | inr (kept, u) ↦ elim (Bool-cases (str_eq j i && (kept.part_number == r.part_number))) [
    | inr t ↦ rw (u, t, add_part) found
    | inl t ↦
        let same : kept.part_number ≡ r.part_number = ground arith in
        rw (u, t, add_part) (ap (λ n. read_part s i n) same ∙ u, found)
  ]
]
add_part-IsFound s i _ rows found = found

listed_parts-IsFound :
    (s : WriteBatch) (i : String) (rest : WriteBatch) → IsFound s i (listed_parts s i rest)
unfolding listed_parts IsFound
listed_parts-IsFound s i [] = tt
listed_parts-IsFound s i (c ∷ rest) =
    add_part-IsFound s i c (listed_parts s i rest) (listed_parts-IsFound s i rest)

unfoldable pub read_orphan : WriteBatch → String → Option ℕ
unfolding replay orphan_after
read_orphan s j = replay (λ c. orphan_after c j) s none

unfoldable pub add_orphan : WriteBatch → Change → List (String × ℕ) → List (String × ℕ)
add_orphan s (put_orphan j t) rows = elim (read_orphan s j) [
  | none ↦ rows
  | some kept ↦ (j, kept) ∷ rows
]
add_orphan s _ rows = rows

unfoldable pub listed_orphans : WriteBatch → WriteBatch → List (String × ℕ)
unfolding add_orphan
listed_orphans s [] = []
listed_orphans s (c ∷ rest) = add_orphan s c (listed_orphans s rest)

abbrev IsMarked : WriteBatch → List (String × ℕ) → Type 0
unfolding read_orphan
IsMarked s rows = All (λ r. read_orphan s (r.0) ≡ some (r.1)) rows

add_orphan-IsMarked :
    (s : WriteBatch) (c : Change) (rows : List (String × ℕ))
    → IsMarked s rows
    → IsMarked s (add_orphan s c rows)
unfolding add_orphan IsMarked read_orphan
add_orphan-IsMarked s (put_orphan j t) rows found = elim (Option-cases (read_orphan s j)) [
  | inl u ↦ rw (u, add_orphan) found
  | inr (kept, u) ↦ rw (u, add_orphan) (u, found)
]
add_orphan-IsMarked s _ rows found = found

listed_orphans-IsMarked : (s rest : WriteBatch) → IsMarked s (listed_orphans s rest)
unfolding listed_orphans IsMarked
listed_orphans-IsMarked s [] = tt
listed_orphans-IsMarked s (c ∷ rest) =
    add_orphan-IsMarked s c (listed_orphans s rest) (listed_orphans-IsMarked s rest)

unfoldable pub memory : Database
unfolding row_of_object read_mark read_part read_orphan listed_objects listed_marks listed_parts
    listed_orphans
memory = record {
  State = WriteBatch;
  find_bucket = λ s n. replay (λ c. bucket_after c n) s none;
  find_object = row_of_object;
  find_upload = λ s i. replay (λ c. upload_after c i) s none;
  find_mark = read_mark;
  find_part = read_part;
  find_orphan = read_orphan;
  scan_objects = λ s b. listed_objects s b s;
  scan_marks = λ s b. listed_marks s b s;
  scan_parts = λ s i. listed_parts s i s;
  scan_orphans = λ s. listed_orphans s s;
  write = λ batch s. s ++ batch;
}

pub memory-IsLawful : IsLawful memory
unfolding memory row_of_object read_mark read_part read_orphan listed_objects listed_marks
    listed_parts listed_orphans
memory-IsLawful = record {
  bucket-write = λ batch s n. replay-written (λ c. bucket_after c n) s batch none;
  object-write = λ batch s b k. replay-written (λ c. object_after c b k) s batch none;
  upload-write = λ batch s i. replay-written (λ c. upload_after c i) s batch none;
  mark-write = λ batch s b k i. replay-written (λ c. mark_after c b k i) s batch false;
  part-write = λ batch s i n. replay-written (λ c. part_after c i n) s batch none;
  orphan-write = λ batch s j. replay-written (λ c. orphan_after c j) s batch none;
  object_listed = λ s b k r e. found_listed s b k r s r e e;
  mark_listed = λ s b k i e. mark_listed_in s b k i s e e;
  parts_found = λ s i. listed_parts-IsFound s i s;
  orphans_found = λ s. listed_orphans-IsMarked s s;
}
