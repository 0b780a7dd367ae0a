-- ===== src/S3/Chunked/Lines.antt =====
-- backend/src/s3/chunked.cpp: the limits of the framing, and the lines of it that head a chunk. The
-- messages of the errors are left out.
use mono_bucket.Base.{
  ℕ, ◌+◌, ◌*◌, ◌%◌, Bool, true, false, Option, none, some, [], ◌∷◌, ltb, if◌then◌else◌, Bytes,
  length, codes, word64, Result, ok, err,
}
use mono_bucket.S3.Errors.{S3ErrorCode, incomplete_body}
use mono_bucket.S3.Range.{strip_prefix, split_at_first}
use mono_bucket.S3.Text.{split_at_crlf}
use mono_bucket.S3.Uri.{hex_value}

-- kMaxChunkBytes, kMaxChunks, kMaxChunkHeaderBytes and kMaxTrailers
abbrev pub max_chunk_bytes : ℕ
max_chunk_bytes = 5 * 1024 * 1024 * 1024

abbrev pub max_chunks : ℕ
max_chunks = 4000000

abbrev pub max_chunk_header_bytes : ℕ
max_chunk_header_bytes = 1024

abbrev pub max_trailers : ℕ
max_trailers = 32

abbrev pub malformed {ℓ} : {A : Type ℓ} → Result S3ErrorCode A
malformed = err incomplete_body

-- The line, and the input after it.
abbrev pub bounded_line : ℕ → Option (Bytes × Bytes) → Result S3ErrorCode (Bytes × Bytes)
bounded_line limit none = malformed
bounded_line limit (some (line, input)) =
    if ltb limit (length line) then malformed else ok (line, input)

unfoldable pub take_line : Bytes → ℕ → Result S3ErrorCode (Bytes × Bytes)
unfolding split_at_crlf
take_line input limit = bounded_line limit (split_at_crlf input)

-- The loop of `parseHexSize`, with the value so far.
unfoldable pub hex_from : ℕ → Bytes → Option ℕ
hex_from value [] = some value
hex_from value (c ∷ text) = elim (hex_value c) [
  | none ↦ none
  | some digit ↦ hex_from ((value * 16 + digit) % word64) text
]

abbrev bounded_size : Option ℕ → Result S3ErrorCode ℕ
bounded_size none = malformed
bounded_size (some value) = if ltb max_chunk_bytes value then malformed else ok value

unfoldable pub parse_hex_size : Bytes → Result S3ErrorCode ℕ
unfolding hex_from
parse_hex_size [] = malformed
parse_hex_size (c ∷ text) =
    if ltb 16 (length (c ∷ text)) then malformed else bounded_size (hex_from 0 (c ∷ text))

-- The fields of a chunk's header: its size and its signature.
abbrev pub signature_field : Bytes → Option Bytes → Result S3ErrorCode (Bytes × Bytes)
signature_field size_field none = malformed
signature_field size_field (some signature) = ok (size_field, signature)

abbrev pub extension_fields : Bytes → Option (Bytes × Bytes) → Result S3ErrorCode (Bytes × Bytes)
extension_fields header none = ok (header, [])
extension_fields header (some (size_field, extension)) =
    signature_field size_field (strip_prefix (codes "chunk-signature=") extension)

unfoldable pub chunk_header_fields : Bytes → Result S3ErrorCode (Bytes × Bytes)
chunk_header_fields header = extension_fields header (split_at_first b';' header)

abbrev pub no_bytes : Bytes → Bool
no_bytes [] = true
no_bytes (c ∷ text) = false
