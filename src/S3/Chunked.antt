-- ===== src/S3/Chunked.antt =====
-- backend/src/s3/chunked.hpp and chunked.cpp: the decoder of `aws-chunked` bodies. `written` are the
-- pieces that the sink was given, in their order. HMAC-SHA256 and SHA-256 are parameters. The loops
-- are on fuel, which `decode` sets to the length of the body.
pub mod Lines
pub mod Trailers
pub mod Fuel
pub mod Framing
pub mod Rounds
pub mod Signed
pub mod Written
pub mod Accepted
pub mod Encodings
mod Tests
use mono_bucket.Base.{
  ℕ, zero, suc, ◌+◌, Bool, true, false, ◌&&◌, ◌||◌, not, Option, none, some, List, [], ◌∷◌, ◌++◌,
  ltb, ◌==◌, if◌then◌else◌, Bytes, length, take, drop, add64, Result, ok, err, ◌>>=◌,
}
use mono_bucket.S3.Chunked.Lines.{
  max_chunks, max_chunk_header_bytes, malformed, take_line, parse_hex_size, chunk_header_fields,
  no_bytes,
}
use mono_bucket.S3.Chunked.Trailers.{trailer_lines}
use mono_bucket.S3.Errors.{S3ErrorCode, incomplete_body, signature_does_not_match}
use mono_bucket.S3.Range.{strip_prefix}
use mono_bucket.S3.Sigv4.{chunk_signature, trailer_signature, secure_equals}
use mono_bucket.S3.Text.{crlf, to_lower}

-- ChunkedDecoder::Options
pub record Options : Type 0 where
  pub verify_signatures : Bool
  pub signing_key : Bytes
  pub amz_date : Bytes
  pub scope : Bytes
  pub seed_signature : Bytes
  pub expect_trailer_signature : Bool
  pub declared_length : ℕ

-- ChunkedDecoder, and what its sink was given.
pub record ChunkedDecoder : Type 0 where
  pub options : Options
  pub decoded : ℕ
  pub trailers : List (Bytes × Bytes)
  pub written : List Bytes

-- ChunkedDecoder::ChunkedDecoder
abbrev pub new_decoder : Options → ChunkedDecoder
new_decoder options = record { options = options; decoded = 0; trailers = []; written = [] }

-- A chunk of which nothing was written yet: its size, its payload, the signature that the next one is chained to,
-- and the input after the payload.
pub record Chunk : Type 0 where
  pub size : ℕ
  pub payload : Bytes
  pub signature : Bytes
  pub rest : Bytes

-- What a round of the loop comes to.
pub data Round : Type 0 where
  refused : S3ErrorCode → Round
  last_chunk : (signature rest : Bytes) → Round
  next_chunk : (size : ℕ) (payload signature rest : Bytes) → Round

module _ (hmac_sha256 : Bytes → Bytes → Bytes) (sha256_hex : Bytes → Bytes) where
  -- The signature that a chunk must carry.
  unfoldable pub expected_signature : Options → Bytes → Bytes → Bytes
  expected_signature o previous payload =
      chunk_signature hmac_sha256 o.signing_key o.amz_date o.scope previous (sha256_hex payload)

  abbrev pub verified_chunk : Options → Bytes → Bytes → ℕ → Bytes → Bytes → Result S3ErrorCode Chunk
  verified_chunk o previous signature size payload rest =
      let expected = expected_signature o previous payload in
      if o.verify_signatures
      then (if not (secure_equals expected (to_lower signature))
          then err signature_does_not_match
          else ok (record { size = size; payload = payload; signature = expected; rest = rest }))
      else ok (record { size = size; payload = payload; signature = previous; rest = rest })

  abbrev pub sized_chunk :
      Options → Bytes → Bytes → Bytes → Result S3ErrorCode ℕ → Result S3ErrorCode Chunk
  sized_chunk o previous signature body (err e) = err e
  sized_chunk o previous signature body (ok size) =
      if o.verify_signatures && no_bytes signature
      then err signature_does_not_match
      else if ltb (length body) size
      then malformed
      else verified_chunk o previous signature size (take size body) (drop size body)

  abbrev pub fields_chunk :
      Options → Bytes → Bytes → Result S3ErrorCode (Bytes × Bytes) → Result S3ErrorCode Chunk
  fields_chunk o previous body (err e) = err e
  fields_chunk o previous body (ok (size_field, signature)) =
      sized_chunk o previous signature body (parse_hex_size size_field)

  abbrev pub line_chunk :
      Options → Bytes → Result S3ErrorCode (Bytes × Bytes) → Result S3ErrorCode Chunk
  line_chunk o previous (err e) = err e
  line_chunk o previous (ok (header, body)) =
      fields_chunk o previous body (chunk_header_fields header)

  unfoldable pub read_chunk : Options → Bytes → Bytes → Result S3ErrorCode Chunk
  read_chunk o previous body = line_chunk o previous (take_line body max_chunk_header_bytes)

  -- The CRLF after the payload: a chunk of no bytes may be without.
  abbrev pub end_last : Bytes → Bytes → Option Bytes → Round
  end_last signature rest none = last_chunk signature rest
  end_last signature rest (some after) = last_chunk signature after

  abbrev pub end_next : ℕ → Bytes → Bytes → Option Bytes → Round
  end_next size payload signature none = refused incomplete_body
  end_next size payload signature (some after) = next_chunk size payload signature after

  abbrev pub end_chunk : Result S3ErrorCode Chunk → Round
  end_chunk (err e) = refused e
  end_chunk (ok c) =
      if c.size == 0
      then end_last c.signature c.rest (strip_prefix crlf c.rest)
      else end_next c.size c.payload c.signature (strip_prefix crlf c.rest)

  unfoldable pub advance : Options → ℕ → Bytes → Bytes → Round
  unfolding read_chunk
  advance o chunk_count previous body =
      if ltb max_chunks (chunk_count + 1)
      then refused incomplete_body
      else end_chunk (read_chunk o previous body)

  -- decoded_ += size; sink(payload)
  unfoldable pub accept : ℕ → Bytes → ChunkedDecoder → ChunkedDecoder
  accept size payload d = record d {
    decoded = add64 d.decoded size;
    written = d.written ++ (payload ∷ []);
  }

  -- The loop over the chunks. It yields the last signature and the input after the last chunk.
  unfoldable pub chunks_from :
      ℕ
      → ℕ
      → Bytes
      → Bytes
      → ChunkedDecoder
      → Option (Result S3ErrorCode (Bytes × Bytes) × ChunkedDecoder)
  unfolding advance accept
  chunks_from fuel chunk_count previous [] d = some (malformed, d)
  chunks_from zero chunk_count previous (c ∷ body) d = none
  chunks_from (suc fuel) chunk_count previous (c ∷ body) d =
      elim (advance d.options chunk_count previous (c ∷ body)) [
        | refused e ↦ some (err e, d)
        | last_chunk signature rest ↦ some (ok (signature, rest), d)
        | next_chunk size payload signature rest ↦
            chunks_from fuel (chunk_count + 1) signature rest (accept size payload d)
      ]

  -- The checks after the loops.
  unfoldable pub check_trailers : Options → Bytes → Bytes → Bytes → Result S3ErrorCode (Unit {0})
  check_trailers o previous canonical declared =
      let expected =
        trailer_signature hmac_sha256 o.signing_key o.amz_date o.scope previous
          (sha256_hex canonical) in
      if o.verify_signatures && o.expect_trailer_signature
      then (if no_bytes declared
          then err signature_does_not_match
          else if not (secure_equals expected declared)
          then err signature_does_not_match
          else ok tt)
      else ok tt

  unfoldable pub check_length : ChunkedDecoder → Result S3ErrorCode (Unit {0})
  check_length d =
      if not (d.options.declared_length == 0) && not (d.decoded == d.options.declared_length)
      then malformed
      else ok tt

  abbrev pub after_trailers :
      Bytes
      → ChunkedDecoder
      → Option (Result S3ErrorCode (Bytes × Bytes) × List (Bytes × Bytes))
      → Option (Result S3ErrorCode (Unit {0}) × ChunkedDecoder)
  after_trailers previous d none = none
  after_trailers previous d (some (err e, trailers)) =
      some (err e, record d { trailers = trailers })
  after_trailers previous d (some (ok (canonical, declared), trailers)) = some (
    check_trailers d.options previous canonical declared >>= (λ _. check_length d),
    record d { trailers = trailers },
  )

  abbrev pub after_chunks :
      ℕ
      → Option (Result S3ErrorCode (Bytes × Bytes) × ChunkedDecoder)
      → Option (Result S3ErrorCode (Unit {0}) × ChunkedDecoder)
  after_chunks fuel none = none
  after_chunks fuel (some (err e, d)) = some (err e, d)
  after_chunks fuel (some (ok (previous, body), d)) =
      after_trailers previous d (trailer_lines fuel body [] [] d.trailers)

  unfoldable pub decode :
      Bytes → ChunkedDecoder → Option (Result S3ErrorCode (Unit {0}) × ChunkedDecoder)
  unfolding chunks_from trailer_lines
  decode body d =
      after_chunks (length body) (chunks_from (length body) 0 d.options.seed_signature body d)
