-- ===== src/S3/Range/Laws.antt =====
-- What a range request can address (request.cpp: parseRange).
use Prim.Native.Nat.{min}
use mono_bucket.Base.{
  ℕ, ◌+◌, ◌-◌, ◌≤◌, ◌<◌, ◌≡◌, ◌↔◌, Option, none, some, [], ◌∷◌, leb, ◌==◌, arith, Bytes, any, codes,
  Bool-cases, inl, inr,
}
use mono_bucket.S3.Range.{
  ByteRange, RangeResult, satisfiable, parse_range, texts_range, offset_range, suffix_range, number,
  strip_prefix, explicit_range, spec_range, split_at_first,
}

-- A range that is served is not empty and lies inside the object.
abbrev pub IsInside : ℕ → RangeResult × ByteRange → Type 0
IsInside size (satisfiable, r) = (0 < r.length) × (r.offset + r.length ≤ size)
IsInside size _ = Unit

suffix_range-IsInside :
    (n : Option ℕ) (size : ℕ) (out : ByteRange) → IsInside size (suffix_range n size out)
unfolding suffix_range
suffix_range-IsInside none size out = tt
suffix_range-IsInside (some n) size out = ground arith

explicit_range-IsInside :
    (first : ℕ) (n : Option ℕ) (size : ℕ) (out : ByteRange)
    → first < size
    → IsInside size (explicit_range first n size out)
explicit_range-IsInside first none size out h = tt
explicit_range-IsInside first (some n) size out h = ground arith

offset_range-IsInside :
    (n : Option ℕ) (text : Bytes) (size : ℕ) (out : ByteRange)
    → IsInside size (offset_range n text size out)
unfolding offset_range
offset_range-IsInside none text size out = tt
offset_range-IsInside (some first) [] size out = ground arith
offset_range-IsInside (some first) (c ∷ text) size out = elim (Bool-cases (leb size first)) [
  | inl past ↦ rw past tt
  | inr within ↦
      rw within (explicit_range-IsInside first (number (c ∷ text)) size out (ground arith))
]

texts_range-IsInside :
    (texts : Option (Bytes × Bytes)) (size : ℕ) (out : ByteRange)
    → IsInside size (texts_range texts size out)
unfolding texts_range
texts_range-IsInside none size out = tt
texts_range-IsInside (some ([], [])) size out = tt
texts_range-IsInside (some ([], c ∷ text)) size out =
    suffix_range-IsInside (number (c ∷ text)) size out
texts_range-IsInside (some (c ∷ text, last)) size out =
    offset_range-IsInside (number (c ∷ text)) last size out

-- Whatever the header, a range that is served has at least one byte and ends inside the object.
pub parse_range-IsInside :
    (header : Bytes) (size : ℕ) (out : ByteRange) → IsInside size (parse_range header size out)
unfolding parse_range
parse_range-IsInside header size out = inside (strip_prefix (codes "bytes=") header)
  where
    inside : (spec : Option Bytes) → IsInside size (spec_range spec size out)
    inside none = tt
    inside (some spec) = elim (Bool-cases (any (λ c. c == b',') spec)) [
      | inl many ↦ rw many tt
      | inr one ↦ rw one (texts_range-IsInside (split_at_first b'-' spec) size out)
    ]

-- Where both ends are numbers, the range is served exactly when it starts inside the object and
-- does not end before it starts; it is then cut at the end of the object.
pub offset_range-satisfiable_iff :
    (a b c : ℕ) (text : Bytes) (size : ℕ) (out : ByteRange)
    → number (c ∷ text) ≡ some b
    → (((offset_range (some a) (c ∷ text) size out).0 ≡ satisfiable) ↔ ((a < size) × (a ≤ b)))
      × (a < size
          → a ≤ b
          → (offset_range (some a) (c ∷ text) size out).1
            ≡ record { offset = a; length = min (b + 1) size - a })
unfolding offset_range
offset_range-satisfiable_iff a b c text size out h = rw h (ground arith)
