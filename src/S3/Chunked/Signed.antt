-- ===== src/S3/Chunked/Signed.antt =====
-- backend/src/s3/chunked.cpp: a description of the signed framing, apart from how it is parsed.
use mono_bucket.Base.{
  append_assoc, ℕ, ◌+◌, ◌%◌, ◌≡◌, refl, ◌∙◌, sym, ap, ◌⊎◌, true, false, Option, none, some, List,
  [], ◌∷◌, ◌++◌, Bytes, length, codes, word64, Result, ok, arith,
}
use mono_bucket.S3.Chunked.{Options, Chunk, ChunkedDecoder, expected_signature}
use mono_bucket.S3.Chunked.Framing.{IsFramed, IsSigned, strip_prefix-parts, split_at_first-parts}
use mono_bucket.S3.Chunked.Lines.{
  signature_field, extension_fields, chunk_header_fields, parse_hex_size, no_bytes,
}
use mono_bucket.S3.Chunked.Trailers.{trailer_lines}
use mono_bucket.S3.Sigv4.{trailer_signature}
use mono_bucket.S3.Errors.{S3ErrorCode}
use mono_bucket.S3.Range.{strip_prefix, split_at_first}
use mono_bucket.S3.Text.{crlf, to_lower}

-- A header that carries a signature is its size, the extension's name and the signature.
header_parts :
    (header size_text signature_text : Bytes)
    → chunk_header_fields header ≡ ok (size_text, signature_text)
    → no_bytes signature_text ≡ false
    → header ≡ size_text ++ (codes ";chunk-signature=" ++ signature_text)
unfolding chunk_header_fields
header_parts header size_text signature_text h f = go (split_at_first b';' header) refl h
  where
    field :
        (size extension : Bytes) (s : Option Bytes)
        → header ≡ size ++ (b';' ∷ extension)
        → strip_prefix (codes "chunk-signature=") extension ≡ s
        → signature_field size s ≡ ok (size_text, signature_text)
        → header ≡ size_text ++ (codes ";chunk-signature=" ++ signature_text)
    field size extension none p s h = absurd (grind arith)
    field size extension (some text) p s h =
        let parts = strip_prefix-parts (codes "chunk-signature=") extension text s in grind arith

    go :
        (o : Option (Bytes × Bytes))
        → split_at_first b';' header ≡ o
        → extension_fields header o ≡ ok (size_text, signature_text)
        → header ≡ size_text ++ (codes ";chunk-signature=" ++ signature_text)
    go none s h = absurd (grind arith)
    go (some (size, extension)) s h =
        field size extension (strip_prefix (codes "chunk-signature=") extension)
          (split_at_first-parts b';' header size extension s) refl h

-- The bytes of the payloads.
unfoldable pub payload_bytes : List Bytes → ℕ
payload_bytes [] = 0
payload_bytes (payload ∷ payloads) = length payload + payload_bytes payloads

module _ (hmac_sha256 : Bytes → Bytes → Bytes) (sha256_hex : Bytes → Bytes) where
  -- The body starts with a chunk of the payload, whose header carries the signature that is expected of
  -- it after `previous`.
  unfoldable pub SignedChunk : Options → Bytes → Bytes → Bytes → Bytes → Type 0
  unfolding expected_signature parse_hex_size to_lower
  SignedChunk o previous payload body rest =
      (size_text : Bytes) × (signature_text : Bytes) × (body
        ≡ size_text
          ++ (codes ";chunk-signature=" ++ (signature_text ++ (crlf ++ (payload ++ rest)))))
      × (parse_hex_size size_text ≡ ok (length payload))
      × (to_lower signature_text ≡ expected_signature hmac_sha256 sha256_hex o previous payload)

  -- The body starts with chunks of the payloads, each chained to the one before it.
  unfoldable pub SignedChunks : Options → Bytes → List Bytes → Bytes → Bytes → Bytes → Type 0
  unfolding SignedChunk expected_signature
  SignedChunks o previous [] body rest last = (body ≡ rest) × (previous ≡ last)
  SignedChunks o previous (payload ∷ payloads) body rest last =
      (after : Bytes) × SignedChunk o previous payload body (crlf ++ after)
      × SignedChunks o (expected_signature hmac_sha256 sha256_hex o previous payload) payloads after
          rest last

  pub framed_signed :
      (o : Options) (previous body : Bytes) (c : Chunk)
      → o.verify_signatures ≡ true
      → IsFramed hmac_sha256 sha256_hex o previous body c
      → SignedChunk o previous c.payload body c.rest
        × (c.signature ≡ expected_signature hmac_sha256 sha256_hex o previous c.payload)
  unfolding SignedChunk IsSigned
  framed_signed o previous body c v f =
      let (e, s) = f.is_signed.0 v in
      let parts = header_parts f.header f.size_text f.signature_text f.has_fields (f.carries v) in
      let whole : body
          ≡ f.size_text
            ++ (codes ";chunk-signature="
                ++ (f.signature_text ++ (crlf ++ (c.payload ++ c.rest)))) =
        f.is_split
        ∙ ap (λ h. h ++ (crlf ++ (c.payload ++ c.rest))) parts
        ∙ append_assoc f.size_text (codes ";chunk-signature=" ++ f.signature_text)
            (crlf ++ (c.payload ++ c.rest))
        ∙ ap (λ t. f.size_text ++ t)
            (append_assoc (codes ";chunk-signature=") f.signature_text
              (crlf ++ (c.payload ++ c.rest))) in
      (
        (f.size_text, f.signature_text, whole, f.has_size ∙ ap (λ n. ok n) (sym f.is_whole), s ∙ e),
        e,
      )

  -- The chunk of no bytes that ends the chunks, with its CRLF or without.
  unfoldable pub Closed : Options → Bytes → Bytes → Bytes → Bytes → Type 0
  unfolding SignedChunk expected_signature
  Closed o last rest signature trailers =
      (after : Bytes) × SignedChunk o last [] rest after
      × ((after ≡ trailers) ⊎ (after ≡ crlf ++ trailers))
      × (signature ≡ expected_signature hmac_sha256 sha256_hex o last [])

  pub record IsRead (previous body : Bytes) (d : ChunkedDecoder)
      (r : Result S3ErrorCode (Bytes × Bytes)) (d' : ChunkedDecoder) : Type 0 where
    pub payloads : List Bytes
    pub rest : Bytes
    pub last : Bytes
    pub has_chunks : SignedChunks d.options previous payloads body rest last
    pub has_written : d'.written ≡ d.written ++ payloads
    pub has_decoded : d'.decoded ≡ (d.decoded + payload_bytes payloads) % word64
    pub same_options : d'.options ≡ d.options
    pub same_trailers : d'.trailers ≡ d.trailers
    pub is_closed :
        (signature trailers : Bytes)
        → r ≡ ok (signature, trailers)
        → Closed d.options last rest signature trailers

  -- A body that is chunks of the payloads, the chunk of no bytes, and a trailer block, with a length that
  -- is the declared one, if there is one, and trailers that are signed where that is expected.
  pub record IsAccepted (o : Options) (body : Bytes) (d : ChunkedDecoder) : Type 0 where
    pub rest : Bytes
    pub last : Bytes
    pub signature : Bytes
    pub block : Bytes
    pub canonical : Bytes
    pub declared : Bytes
    pub has_chunks : SignedChunks o o.seed_signature d.written body rest last
    pub is_closed : Closed o last rest signature block
    pub has_trailers :
        trailer_lines (length body) block [] [] [] ≡ some (ok (canonical, declared), d.trailers)
    pub has_decoded : d.decoded ≡ payload_bytes d.written % word64
    pub has_length : (o.declared_length ≡ 0) ⊎ (d.decoded ≡ o.declared_length)
    pub trailers_signed :
        o.expect_trailer_signature ≡ true
        → declared
          ≡ trailer_signature hmac_sha256 o.signing_key o.amz_date o.scope signature
              (sha256_hex canonical)
