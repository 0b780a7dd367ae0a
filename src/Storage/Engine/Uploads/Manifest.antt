-- ===== src/Storage/Engine/Uploads/Manifest.antt =====
-- backend/src/storage/storage_engine.cpp: the manifest of a completion.
use mono_bucket.Base.{
  ℕ, ◌<◌, ◌≡◌, ◌↔◌, refl, sym, map, Bytes, bytes_eq_iff, false, inl, inr, true, some, List, [], ◌∷◌,
  leb, bytes_eq, arith, subst, Bool-cases, Option-cases, Result-cases, ok, All,
}
use mono_bucket.Storage.Metadata.{PartRecord}
use mono_bucket.Storage.Engine.Uploads.{RequestedPart, stored_part, order_parts, unquote}

-- The part numbers ascend from `previous`.
unfoldable pub IsAscending : ℕ → List PartRecord → Type 0
IsAscending previous [] = Unit
IsAscending previous (r ∷ parts) = (previous < r.part_number) × IsAscending r.part_number parts

stored_part-number :
    (number : ℕ) (stored : List PartRecord) (r : PartRecord)
    → stored_part number stored ≡ some r
    → r.part_number ≡ number
unfolding stored_part
stored_part-number number [] r e = grind arith
stored_part-number number (p ∷ stored) r e = grind (arith, stored_part-number number stored r)

-- What `order_parts` makes of the first part of a manifest and of the rest.
order_parts-cons :
    (previous : ℕ) (want : RequestedPart) (wanted : List RequestedPart)
    (stored parts : List PartRecord)
    → order_parts previous (want ∷ wanted) stored ≡ ok parts
    → (found : PartRecord) × ((rest : List PartRecord) × ((parts ≡ found ∷ rest)
          × ((previous < want.part_number)
              × ((stored_part want.part_number stored ≡ some found)
                  × ((bytes_eq (unquote want.etag) found.etag ≡ true)
                      × (order_parts want.part_number wanted stored ≡ ok rest))))))
unfolding order_parts
order_parts-cons previous want wanted stored parts e =
    elim (Bool-cases (leb want.part_number previous)) [
      | inl a ↦ let no = rw a at e in grind arith
      | inr a ↦ elim (Option-cases (stored_part want.part_number stored)) [
        | inl b ↦ let no = rw (a, b) at e in grind arith
        | inr (found, b) ↦ elim (Bool-cases (bytes_eq (unquote want.etag) found.etag)) [
          | inr c ↦ let no = rw (a, b, c) at e in grind arith
          | inl c ↦ elim (Result-cases (order_parts want.part_number wanted stored)) [
            | inl (code, d) ↦ let no = rw (a, b, c, d) at e in grind arith
            | inr (rest, d) ↦
                let is = rw (a, b, c, d) at e in
                (found, (rest, (grind arith, (ground arith, (b, (c, d))))))
          ]
        ]
      ]
    ]

-- What a manifest asks for, and the parts that answer it.
abbrev pub asked_numbers : List RequestedPart → List ℕ
asked_numbers = map (λ w. w.part_number)

abbrev pub asked_etags : List RequestedPart → List Bytes
asked_etags = map (λ w. unquote w.etag)

abbrev pub numbers : List PartRecord → List ℕ
numbers = map (λ r. r.part_number)

abbrev pub etags : List PartRecord → List Bytes
etags = map (λ r. r.etag)

abbrev pub Answers : ℕ → List RequestedPart → List PartRecord → List PartRecord → Type 0
Answers previous wanted stored parts =
    (numbers parts ≡ asked_numbers wanted)
    × (etags parts ≡ asked_etags wanted)
    × IsAscending previous parts
    × All (λ r. stored_part r.part_number stored ≡ some r) parts

answered_by :
    (previous : ℕ) (wanted : List RequestedPart) (stored parts : List PartRecord)
    → order_parts previous wanted stored ≡ ok parts
    → Answers previous wanted stored parts
unfolding order_parts IsAscending
answered_by previous [] stored [] e = (refl, refl, tt, tt)
answered_by previous [] stored (r ∷ parts) e = absurd (grind arith)
answered_by previous (want ∷ wanted) stored parts e =
    let (found, (rest, (is, (above, (at, (same, later)))))) =
      order_parts-cons previous want wanted stored parts e in
    let number = stored_part-number want.part_number stored found at in
    let tag = (bytes_eq_iff (unquote want.etag) found.etag).0 same in
    let (ns, es, ascending, each) = answered_by want.part_number wanted stored rest later in
    subst (Answers previous (want ∷ wanted) stored) (sym is) (
      grind (arith, number, ns),
      grind (arith, tag, es),
      (ground (arith, number), subst (λ n. IsAscending n rest) (sym number) ascending),
      (subst (λ n. stored_part n stored ≡ some found) (sym number) at, each),
    )

accepted_with :
    (previous : ℕ) (wanted : List RequestedPart) (stored parts : List PartRecord)
    → Answers previous wanted stored parts
    → order_parts previous wanted stored ≡ ok parts
unfolding order_parts IsAscending
accepted_with previous [] stored [] h = refl
accepted_with previous [] stored (r ∷ parts) h = absurd (grind arith)
accepted_with previous (want ∷ wanted) stored [] h = absurd (grind arith)
accepted_with previous (want ∷ wanted) stored (r ∷ parts) (ns, es, (above, ascending), (at, each)) =
    let number : r.part_number ≡ want.part_number = grind (arith, ns) in
    let tag : unquote want.etag ≡ r.etag = grind (arith, es) in
    let later = accepted_with want.part_number wanted stored parts (
      grind (arith, ns),
      grind (arith, es),
      subst (λ n. IsAscending n parts) number ascending,
      each,
    ) in
    let over : leb want.part_number previous ≡ false = ground (arith, number) in
    rw
      (
        order_parts,
        over,
        subst (λ n. stored_part n stored ≡ some r) number at,
        (bytes_eq_iff (unquote want.etag) r.etag).1 tag,
        later,
      )
      refl

-- A manifest is accepted with some parts exactly where these are, one for one and in its order, the
-- parts stored under its numbers, with the entity tags it gives, without their quotes, and the
-- numbers ascend from the one before.
pub order_parts_iff :
    (previous : ℕ) (wanted : List RequestedPart) (stored parts : List PartRecord)
    → (order_parts previous wanted stored ≡ ok parts) ↔ Answers previous wanted stored parts
order_parts_iff previous wanted stored parts =
    (answered_by previous wanted stored parts, accepted_with previous wanted stored parts)
