-- ===== src/S3/Chunked/Trailers.antt =====
-- backend/src/s3/chunked.cpp: the trailer block that follows the last chunk.
use mono_bucket.Base.{
  ℕ, zero, suc, Option, none, some, List, [], ◌∷◌, ◌++◌, leb, if◌then◌else◌, Bytes, bytes_eq,
  length, codes, Result, ok, err,
}
use mono_bucket.S3.Chunked.Lines.{max_trailers, max_chunk_header_bytes, take_line}
use mono_bucket.S3.Errors.{S3ErrorCode, incomplete_body}
use mono_bucket.S3.Range.{split_at_first}
use mono_bucket.S3.Text.{to_lower, trim}

-- trailers_.emplace: the first value of a name stays.
unfoldable pub emplace : Bytes → Bytes → List (Bytes × Bytes) → List (Bytes × Bytes)
emplace name value [] = (name, value) ∷ []
emplace name value ((n, v) ∷ trailers) =
    let rest = emplace name value trailers in
    if bytes_eq n name then (n, v) ∷ trailers else (n, v) ∷ rest

-- What a line of the trailer block comes to.
pub data TrailerLine : Type 0 where
  refused_line : S3ErrorCode → TrailerLine
  blank_line : TrailerLine
  signature_line : (signature rest : Bytes) → TrailerLine
  header_line : (name value rest : Bytes) → TrailerLine

abbrev pub named_line : Bytes → Bytes → Bytes → TrailerLine
named_line name value rest =
    if bytes_eq name (codes "x-amz-trailer-signature")
    then signature_line (to_lower value) rest
    else header_line name value rest

abbrev pub colon_line : Option (Bytes × Bytes) → Bytes → TrailerLine
colon_line none rest = refused_line incomplete_body
colon_line (some (name, value)) rest = named_line (to_lower (trim name)) (trim value) rest

abbrev pub read_line : List (Bytes × Bytes) → Result S3ErrorCode (Bytes × Bytes) → TrailerLine
read_line trailers (err e) = refused_line e
read_line trailers (ok ([], rest)) = blank_line
read_line trailers (ok (c ∷ line, rest)) =
    if leb max_trailers (length trailers)
    then refused_line incomplete_body
    else colon_line (split_at_first b':' (c ∷ line)) rest

unfoldable pub trailer_line : List (Bytes × Bytes) → Bytes → TrailerLine
trailer_line trailers body = read_line trailers (take_line body max_chunk_header_bytes)

abbrev pub canonical_line : Bytes → Bytes → Bytes
canonical_line name value = name ++ (b':' ∷ (value ++ (10 ∷ [])))

-- The loop over the trailer block, with the canonical trailers and the declared signature so far. What
-- comes back beside them is the trailers that were kept, the ones before an error too.
unfoldable pub trailer_lines :
    ℕ
    → Bytes
    → Bytes
    → Bytes
    → List (Bytes × Bytes)
    → Option (Result S3ErrorCode (Bytes × Bytes) × List (Bytes × Bytes))
unfolding trailer_line emplace
trailer_lines fuel [] canonical declared trailers = some (ok (canonical, declared), trailers)
trailer_lines zero (c ∷ body) canonical declared trailers = none
trailer_lines (suc fuel) (c ∷ body) canonical declared trailers =
    elim (trailer_line trailers (c ∷ body)) [
      | refused_line e ↦ some (err e, trailers)
      | blank_line ↦ some (ok (canonical, declared), trailers)
      | signature_line signature rest ↦ trailer_lines fuel rest canonical signature trailers
      | header_line name value rest ↦
          trailer_lines fuel rest (canonical ++ canonical_line name value) declared
            (emplace name value trailers)
    ]
