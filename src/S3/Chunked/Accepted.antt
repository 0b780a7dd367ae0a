-- ===== src/S3/Chunked/Accepted.antt =====
-- backend/src/s3/chunked.cpp: what a signed body that is accepted comes to.
use mono_bucket.Base.{
  ◌≡◌, refl, ◌∙◌, sym, ap, subst, ◌⊎◌, inl, inr, true, Option, none, some, List, [], Bytes, length,
  Result, ok, err, ◌>>=◌, arith, Bool-cases, ==_iff, ◌==◌,
}
use mono_bucket.S3.Chunked.{
  Options, ChunkedDecoder, chunks_from, after_trailers, after_chunks, check_trailers, check_length,
  decode, new_decoder,
}
use mono_bucket.S3.Chunked.Lines.{no_bytes}
use mono_bucket.S3.Chunked.Trailers.{trailer_lines}
use mono_bucket.S3.Errors.{S3ErrorCode}
use mono_bucket.S3.Chunked.Signed.{SignedChunks, payload_bytes, IsRead, IsAccepted}
use mono_bucket.S3.Sigv4.{secure_equals, trailer_signature}
use mono_bucket.S3.Sigv4.Compare.{secure_equals_iff}
use mono_bucket.S3.Chunked.Written.{chunks_from-IsRead}

module _ (hmac_sha256 : Bytes → Bytes → Bytes) (sha256_hex : Bytes → Bytes) where
  both_ok :
      (a b : Result S3ErrorCode (Unit {0})) → (a >>= (λ _. b)) ≡ ok tt → (a ≡ ok tt) × (b ≡ ok tt)
  both_ok (err e) b h = absurd (grind arith)
  both_ok (ok tt) b h = (refl, h)

  check_length-ok :
      (d : ChunkedDecoder)
      → check_length hmac_sha256 sha256_hex d ≡ ok tt
      → (d.options.declared_length ≡ 0) ⊎ (d.decoded ≡ d.options.declared_length)
  unfolding check_length
  check_length-ok d h = elim (Bool-cases (d.options.declared_length == 0)) [
    | inl t ↦ inl ((==_iff d.options.declared_length 0).0 t)
    | inr f ↦ elim (Bool-cases (d.decoded == d.options.declared_length)) [
      | inl t ↦ inr ((==_iff d.decoded d.options.declared_length).0 t)
      | inr g ↦ absurd (grind arith)
    ]
  ]

  check_trailers-ok :
      (o : Options) (previous canonical declared : Bytes)
      → o.verify_signatures ≡ true
      → check_trailers hmac_sha256 sha256_hex o previous canonical declared ≡ ok tt
      → o.expect_trailer_signature ≡ true
      → declared
        ≡ trailer_signature hmac_sha256 o.signing_key o.amz_date o.scope previous
            (sha256_hex canonical)
  unfolding check_trailers
  check_trailers-ok o previous canonical declared v h x =
      let expected =
        trailer_signature hmac_sha256 o.signing_key o.amz_date o.scope previous
          (sha256_hex canonical) in
      elim (Bool-cases (no_bytes declared)) [
        | inl t ↦ absurd (grind arith)
        | inr f ↦ elim (Bool-cases (secure_equals expected declared)) [
          | inl t ↦ sym ((secure_equals_iff expected declared).0 t)
          | inr g ↦ absurd (grind arith)
        ]
      ]

  after_trailers-IsAccepted :
      (o : Options) (body : Bytes) (d : ChunkedDecoder) (signature text : Bytes)
      (e : ChunkedDecoder)
      → o.verify_signatures ≡ true
      → IsRead hmac_sha256 sha256_hex o.seed_signature body (new_decoder o) (ok (signature, text)) e
      → (t : Option (Result S3ErrorCode (Bytes × Bytes) × List (Bytes × Bytes)))
      → trailer_lines (length body) text [] [] e.trailers ≡ t
      → after_trailers hmac_sha256 sha256_hex signature e t ≡ some (ok tt, d)
      → IsAccepted hmac_sha256 sha256_hex o body d
  after_trailers-IsAccepted o body d signature text e v k none t h = absurd (grind arith)
  after_trailers-IsAccepted o body d signature text e v k (some (err x, trailers)) t h =
      absurd (grind arith)
  after_trailers-IsAccepted o body d signature text e v k
        (some (ok (canonical, declared), trailers)) t h =
      let checks : ◌≡◌ {A = Result S3ErrorCode (Unit {0})}
          (check_trailers hmac_sha256 sha256_hex e.options signature canonical declared
            >>= (λ _. check_length hmac_sha256 sha256_hex e))
          (ok tt) =
        grind arith in
      let (first, second) =
        both_ok (check_trailers hmac_sha256 sha256_hex e.options signature canonical declared)
          (check_length hmac_sha256 sha256_hex e) checks in
      let written : d.written ≡ k.payloads = grind (arith, k.has_written) in
      let kept : d.trailers ≡ trailers = grind arith in
      let decoded : d.decoded ≡ e.decoded = grind arith in
      let signed =
        subst
          (λ z.
            z.verify_signatures ≡ true
            → check_trailers hmac_sha256 sha256_hex z signature canonical declared ≡ ok tt)
          k.same_options (λ _. first) in
      record {
        rest = k.rest;
        last = k.last;
        signature = signature;
        block = text;
        canonical = canonical;
        declared = declared;
        has_chunks =
            subst (λ w. SignedChunks hmac_sha256 sha256_hex o o.seed_signature w body k.rest k.last)
              (sym written) k.has_chunks;
        is_closed = k.is_closed signature text refl;
        has_trailers =
            subst
              (λ z.
                trailer_lines (length body) text [] [] z
                ≡ some (ok (canonical, declared), d.trailers))
              k.same_trailers (t ∙ ap (λ z. some (ok (canonical, declared), z)) (sym kept));
        has_decoded = omega (arith, decoded, k.has_decoded, ap payload_bytes written);
        has_length =
            subst (λ n. (o.declared_length ≡ 0) ⊎ (n ≡ o.declared_length)) (sym decoded)
              (subst (λ z. (z.declared_length ≡ 0) ⊎ (e.decoded ≡ z.declared_length)) k.same_options
                (check_length-ok e second));
        trailers_signed = check_trailers-ok o signature canonical declared v (signed v);
      }

  -- A body that a decoder which verifies signatures accepts is the payloads that its sink was given, each
  -- in a chunk with the signature expected after the one before, and the chunk of no bytes with its own;
  -- the decoded length is the number of bytes of the payloads in 64 bits, and the declared length unless
  -- that is 0; and where trailers must be signed, the declared signature of the trailer block is the
  -- one expected after the last chunk.
  pub decode-IsAccepted :
      (o : Options) (body : Bytes) (d : ChunkedDecoder)
      → o.verify_signatures ≡ true
      → decode hmac_sha256 sha256_hex body (new_decoder o) ≡ some (ok tt, d)
      → IsAccepted hmac_sha256 sha256_hex o body d
  unfolding decode
  decode-IsAccepted o body d v h =
      chunks
        (chunks_from hmac_sha256 sha256_hex (length body) 0 o.seed_signature body (new_decoder o))
        refl h
    where
      chunks :
          (c : Option (Result S3ErrorCode (Bytes × Bytes) × ChunkedDecoder))
          → chunks_from hmac_sha256 sha256_hex (length body) 0 o.seed_signature body (new_decoder o)
            ≡ c
          → after_chunks hmac_sha256 sha256_hex (length body) c ≡ some (ok tt, d)
          → IsAccepted hmac_sha256 sha256_hex o body d
      chunks none c h = absurd (grind arith)
      chunks (some (err x, e)) c h = absurd (grind arith)
      chunks (some (ok (signature, text), e)) c h =
          after_trailers-IsAccepted o body d signature text e v
            (chunks_from-IsRead hmac_sha256 sha256_hex (length body) 0 o.seed_signature body
              (new_decoder o) (ok (signature, text)) e v (omega arith) c)
            (trailer_lines (length body) text [] [] e.trailers) refl h
