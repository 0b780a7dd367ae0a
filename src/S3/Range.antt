-- ===== src/S3/Range.antt =====
-- backend/src/s3/request.hpp and request.cpp: parseRange, the `Range` header of one range of bytes.
pub mod Laws
use mono_bucket.Base.{
  ℕ, ◌+◌, ◌-◌, ◌*◌, ◌%◌, Bool, true, false, ◌&&◌, ◌||◌, not, Option, none, some, List, [], ◌∷◌, ltb,
  leb, ◌==◌, if◌then◌else◌, Bytes, length, any, codes, word64,
}
use mono_bucket.S3.Text.{prepend}
use Prim.Native.Nat.{min}

pub record ByteRange : Type 0 where
  pub offset : ℕ
  pub length : ℕ

pub data RangeResult : Type 0 where
  absent satisfiable unsatisfiable : RangeResult

-- header.compare(0, unit.size(), unit) == 0, and what follows the unit.
unfoldable pub strip_prefix : Bytes → Bytes → Option Bytes
strip_prefix [] text = some text
strip_prefix (u ∷ unit) [] = none
strip_prefix (u ∷ unit) (c ∷ text) = if c == u then strip_prefix unit text else none

-- The texts before and after the first `sep`.
unfoldable pub split_at_first : ℕ → Bytes → Option (Bytes × Bytes)
split_at_first sep [] = none
split_at_first sep (c ∷ text) =
    let rest = split_at_first sep text in if c == sep then some ([], text) else prepend c rest

unfoldable pub is_digit : ℕ → Bool
is_digit c = leb b'0' c && leb c b'9'

unfoldable pub digits_from : ℕ → Bytes → Option ℕ
digits_from value [] = some value
digits_from value (c ∷ text) =
    let rest = digits_from ((value * 10 + (c - b'0')) % word64) text in
    if is_digit c then rest else none

unfoldable pub number : Bytes → Option ℕ
unfolding digits_from is_digit
number [] = none
number (c ∷ text) = if ltb 19 (length (c ∷ text)) then none else digits_from 0 (c ∷ text)

-- `bytes=-N`
unfoldable pub suffix_range : Option ℕ → ℕ → ByteRange → RangeResult × ByteRange
suffix_range none object_size out = (absent, out)
suffix_range (some count) object_size out =
    if count == 0
    then (unsatisfiable, out)
    else let taken = min count object_size in
      let out' : ByteRange = record { offset = object_size - taken; length = taken } in
      (if taken == 0 then (unsatisfiable, out') else (satisfiable, out'))

abbrev pub finish_range : ℕ → ℕ → RangeResult × ByteRange
finish_range first last = (satisfiable, record { offset = first; length = last - first + 1 })

abbrev pub explicit_range : ℕ → Option ℕ → ℕ → ByteRange → RangeResult × ByteRange
explicit_range first none object_size out = (absent, out)
explicit_range first (some explicit_last) object_size out =
    let last = min explicit_last (object_size - 1) in
    if ltb last first then (unsatisfiable, out) else finish_range first last

-- `bytes=A-` and `bytes=A-B`
unfoldable pub offset_range : Option ℕ → Bytes → ℕ → ByteRange → RangeResult × ByteRange
unfolding number
offset_range none last_text object_size out = (absent, out)
offset_range (some first) [] object_size out =
    if leb object_size first then (unsatisfiable, out) else finish_range first (object_size - 1)
offset_range (some first) (c ∷ text) object_size out =
    if leb object_size first
    then (unsatisfiable, out)
    else explicit_range first (number (c ∷ text)) object_size out

unfoldable pub texts_range : Option (Bytes × Bytes) → ℕ → ByteRange → RangeResult × ByteRange
unfolding suffix_range offset_range number
texts_range none object_size out = (absent, out)
texts_range (some ([], [])) object_size out = (absent, out)
texts_range (some ([], c ∷ text)) object_size out = suffix_range (number (c ∷ text)) object_size out
texts_range (some (c ∷ text, last_text)) object_size out =
    offset_range (number (c ∷ text)) last_text object_size out

abbrev pub spec_range : Option Bytes → ℕ → ByteRange → RangeResult × ByteRange
spec_range none object_size out = (absent, out)
spec_range (some spec) object_size out =
    if any (λ c. c == b',') spec
    then (absent, out)
    else texts_range (split_at_first b'-' spec) object_size out

-- `out` is the caller's variable: written where the code assigns it.
unfoldable pub parse_range : Bytes → ℕ → ByteRange → RangeResult × ByteRange
unfolding texts_range split_at_first strip_prefix
parse_range header object_size out =
    spec_range (strip_prefix (codes "bytes=") header) object_size out
