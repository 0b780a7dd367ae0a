-- ===== src/S3/Text.antt =====
-- backend/src/s3/chunked.cpp, cors.cpp and sigv4.cpp: the small functions on texts that these files
-- each declare for themselves, in the "C" locale.
pub mod Laws
use mono_bucket.Base.{
  ℕ, ◌+◌, Bool, true, false, ◌&&◌, ◌||◌, Option, none, some, List, [], ◌∷◌, ◌++◌, leb, ◌==◌,
  if◌then◌else◌, Bytes,
}

-- std::tolower and std::toupper
unfoldable pub lower_byte : ℕ → ℕ
lower_byte c = if leb b'A' c && leb c b'Z' then c + 32 else c

unfoldable pub to_lower : Bytes → Bytes
unfolding lower_byte
to_lower [] = []
to_lower (c ∷ text) = lower_byte c ∷ to_lower text

unfoldable pub is_blank : ℕ → Bool
is_blank c = c == b' ' || c == b'\t'

-- Without the blanks in front, and without those at the end.
unfoldable pub trim_front : Bytes → Bytes
unfolding is_blank
trim_front [] = []
trim_front (c ∷ text) = let rest = trim_front text in if is_blank c then rest else c ∷ text

abbrev pub before_blanks : ℕ → Bytes → Bytes
unfolding is_blank
before_blanks c [] = if is_blank c then [] else c ∷ []
before_blanks c (d ∷ text) = c ∷ d ∷ text

unfoldable pub trim_back : Bytes → Bytes
unfolding is_blank
trim_back [] = []
trim_back (c ∷ text) = before_blanks c (trim_back text)

unfoldable pub trim : Bytes → Bytes
unfolding trim_front trim_back
trim text = trim_back (trim_front text)

abbrev pub crlf : Bytes
crlf = 13 ∷ 10 ∷ []

abbrev pub prepend : ℕ → Option (Bytes × Bytes) → Option (Bytes × Bytes)
prepend c none = none
prepend c (some (before, after)) = some (c ∷ before, after)

-- The texts before and after the first "\r\n".
unfoldable pub split_at_crlf : Bytes → Option (Bytes × Bytes)
split_at_crlf [] = none
split_at_crlf (c ∷ []) = none
split_at_crlf (c ∷ d ∷ text) =
    let later = split_at_crlf (d ∷ text) in
    if c == 13 && d == 10 then some ([], text) else prepend c later

-- The texts between one separator and the next.
abbrev pub onto_first : ℕ → List Bytes → List Bytes
onto_first c [] = (c ∷ []) ∷ []
onto_first c (token ∷ tokens) = (c ∷ token) ∷ tokens

unfoldable pub split_at_each : ℕ → Bytes → List Bytes
split_at_each sep [] = [] ∷ []
split_at_each sep (c ∷ text) =
    let tokens = split_at_each sep text in if c == sep then [] ∷ tokens else onto_first c tokens
