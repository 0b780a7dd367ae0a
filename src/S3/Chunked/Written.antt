-- ===== src/S3/Chunked/Written.antt =====
-- backend/src/s3/chunked.cpp: what the sink is given of a signed body.
use mono_bucket.Base.{
  ℕ, zero, suc, ◌+◌, ◌<◌, ◌≡◌, refl, ◌∙◌, sym, ap, subst, true, Option, none, some, List, [], ◌∷◌,
  ◌++◌, Bytes, length, word64, Result, ok, err, arith,
}
use mono_bucket.S3.Chunked.{
  Options, ChunkedDecoder, Round, refused, last_chunk, next_chunk, expected_signature, advance,
  accept, chunks_from, after_trailers, after_chunks, decode, new_decoder,
}
use mono_bucket.S3.Chunked.Rounds.{advance-next_chunk, advance-last_chunk}
use mono_bucket.S3.Chunked.Trailers.{trailer_lines}
use mono_bucket.S3.Errors.{S3ErrorCode}
use mono_bucket.S3.Text.{crlf}
use mono_bucket.S3.Chunked.Signed.{
  SignedChunk, SignedChunks, Closed, payload_bytes, IsRead, framed_signed,
}

module _ (hmac_sha256 : Bytes → Bytes → Bytes) (sha256_hex : Bytes → Bytes) where
  empty_payload : (payload : Bytes) → length payload ≡ 0 → payload ≡ []
  empty_payload [] h = refl
  empty_payload (c ∷ payload) h = absurd (omega arith)

  append_nil : (xs : List Bytes) → xs ++ [] ≡ xs
  append_nil [] = refl
  append_nil (x ∷ xs) = ap (λ t. x ∷ t) (append_nil xs)

  append_one :
      (xs : List Bytes) (y : Bytes) (ys : List Bytes) → (xs ++ (y ∷ [])) ++ ys ≡ xs ++ (y ∷ ys)
  append_one [] y ys = refl
  append_one (x ∷ xs) y ys = ap (λ t. x ∷ t) (append_one xs y ys)

  nothing-IsRead :
      (previous body : Bytes) (d : ChunkedDecoder) (r : Result S3ErrorCode (Bytes × Bytes))
      (d' : ChunkedDecoder)
      → d.decoded < word64
      → d' ≡ d
      → ((signature trailers : Bytes)
          → r ≡ ok (signature, trailers)
          → Closed hmac_sha256 sha256_hex d.options previous body signature trailers)
      → IsRead hmac_sha256 sha256_hex previous body d r d'
  unfolding payload_bytes SignedChunks
  nothing-IsRead previous body d r d' w e closed = record {
    payloads = [];
    rest = body;
    last = previous;
    has_chunks = (refl, refl);
    has_written = ap (λ x. x.written) e ∙ sym (append_nil d.written);
    has_decoded = omega (arith, ap (λ x. x.decoded) e);
    same_options = ap (λ x. x.options) e;
    same_trailers = ap (λ x. x.trailers) e;
    is_closed = closed;
  }

  last_read :
      (n : ℕ) (previous body : Bytes) (d : ChunkedDecoder) (signature trailers : Bytes)
      → d.options.verify_signatures ≡ true
      → advance hmac_sha256 sha256_hex d.options n previous body ≡ last_chunk signature trailers
      → Closed hmac_sha256 sha256_hex d.options previous body signature trailers
  unfolding Closed
  last_read n previous body d signature trailers v h =
      let l =
        advance-last_chunk hmac_sha256 sha256_hex d.options n previous body signature trailers h in
      let (chunk, s) =
        framed_signed hmac_sha256 sha256_hex d.options previous body l.chunk v l.framed in
      let e = empty_payload l.chunk.payload (l.framed.is_whole ∙ l.empty) in
      (
        l.chunk.rest,
        subst (λ p. SignedChunk hmac_sha256 sha256_hex d.options previous p body l.chunk.rest) e
            chunk,
        l.ended,
        sym l.signatures
            ∙ subst
                (λ p.
                  l.chunk.signature
                  ≡ expected_signature hmac_sha256 sha256_hex d.options previous p)
                e s,
      )

  next-IsRead :
      (n : ℕ) (previous body : Bytes) (d : ChunkedDecoder) (size : ℕ)
      (payload signature rest : Bytes) (r : Result S3ErrorCode (Bytes × Bytes))
      (d' : ChunkedDecoder)
      → d.options.verify_signatures ≡ true
      → advance hmac_sha256 sha256_hex d.options n previous body
        ≡ next_chunk size payload signature rest
      → IsRead hmac_sha256 sha256_hex signature rest
          (accept hmac_sha256 sha256_hex size payload d)
          r
          d'
      → IsRead hmac_sha256 sha256_hex previous body d r d'
  unfolding accept SignedChunks payload_bytes
  next-IsRead n previous body d size payload signature rest r d' v h k =
      let x =
        advance-next_chunk hmac_sha256 sha256_hex d.options n previous body size payload signature
          rest h in
      let (chunk, s) =
        framed_signed hmac_sha256 sha256_hex d.options previous body x.chunk v x.framed in
      let signed : SignedChunk hmac_sha256 sha256_hex d.options previous payload body
          (crlf ++ rest) =
        subst (λ p. SignedChunk hmac_sha256 sha256_hex d.options previous p body (crlf ++ rest))
          x.payloads
          (subst (λ t. SignedChunk hmac_sha256 sha256_hex d.options previous x.chunk.payload body t)
            x.ended chunk) in
      let chained : signature
          ≡ expected_signature hmac_sha256 sha256_hex d.options previous payload =
        sym x.signatures
        ∙ s
        ∙ ap (λ p. expected_signature hmac_sha256 sha256_hex d.options previous p) x.payloads in
      let long : length payload ≡ size = ap length (sym x.payloads) ∙ x.framed.is_whole ∙ x.sizes in
      record {
        payloads = payload ∷ k.payloads;
        rest = k.rest;
        last = k.last;
        has_chunks = (
          rest,
          signed,
          subst (λ s. SignedChunks hmac_sha256 sha256_hex d.options s k.payloads rest k.rest k.last)
              chained k.has_chunks,
        );
        has_written = k.has_written ∙ append_one d.written payload k.payloads;
        has_decoded = omega (arith, k.has_decoded, long);
        same_options = k.same_options;
        same_trailers = k.same_trailers;
        is_closed = k.is_closed;
      }

  pub chunks_from-IsRead :
      (fuel n : ℕ) (previous body : Bytes) (d : ChunkedDecoder)
      (r : Result S3ErrorCode (Bytes × Bytes)) (d' : ChunkedDecoder)
      → d.options.verify_signatures ≡ true
      → d.decoded < word64
      → chunks_from hmac_sha256 sha256_hex fuel n previous body d ≡ some (r, d')
      → IsRead hmac_sha256 sha256_hex previous body d r d'
  unfolding chunks_from accept
  chunks_from-IsRead fuel n previous [] d r d' v w h =
      nothing-IsRead previous [] d r d' w (grind arith) (λ s t e. absurd (grind arith))
  chunks_from-IsRead zero n previous (c ∷ body) d r d' v w h = absurd (grind arith)
  chunks_from-IsRead (suc fuel) n previous (c ∷ body) d r d' v w h =
      go
        (λ size payload signature rest e.
          chunks_from-IsRead fuel (n + 1) signature rest
            (accept hmac_sha256 sha256_hex size payload d) r d' v (omega arith) e)
        (advance hmac_sha256 sha256_hex d.options n previous (c ∷ body)) refl
    where
      go :
          ((size : ℕ) (payload signature rest : Bytes)
            → chunks_from hmac_sha256 sha256_hex fuel
                (n + 1)
                signature
                rest
                (accept hmac_sha256 sha256_hex size payload d)
              ≡ some (r, d')
            → IsRead hmac_sha256 sha256_hex signature rest
                (accept hmac_sha256 sha256_hex size payload d)
                r
                d')
          → (a : Round) → advance hmac_sha256 sha256_hex d.options n previous (c ∷ body) ≡ a
          → IsRead hmac_sha256 sha256_hex previous (c ∷ body) d r d'
      go later (refused e) a =
          let k : ◌≡◌ {A = Option (Result S3ErrorCode (Bytes × Bytes) × ChunkedDecoder)}
              (some (err e, d)) (some (r, d')) =
            rw (a, chunks_from) at h in
          nothing-IsRead previous (c ∷ body) d r d' w (grind arith) (λ s t e. absurd (grind arith))
      go later (last_chunk signature trailers) a =
          let k : ◌≡◌ {A = Option (Result S3ErrorCode (Bytes × Bytes) × ChunkedDecoder)}
              (some (ok (signature, trailers), d)) (some (r, d')) =
            rw (a, chunks_from) at h in
          nothing-IsRead previous (c ∷ body) d r d' w (grind arith) (λ s t e.
            subst (λ z. Closed hmac_sha256 sha256_hex d.options previous (c ∷ body) z t)
              (grind arith)
              (subst (λ z. Closed hmac_sha256 sha256_hex d.options previous (c ∷ body) signature z)
                (grind arith) (last_read n previous (c ∷ body) d signature trailers v a)))
      go later (next_chunk size payload signature rest) a =
          next-IsRead n previous (c ∷ body) d size payload signature rest r d' v a
            (later size payload signature rest (rw (a, chunks_from) at h))

  after_chunks-signed :
      (fuel : ℕ) (body : Bytes) (d : ChunkedDecoder)
      (c : Option (Result S3ErrorCode (Bytes × Bytes) × ChunkedDecoder))
      (r : Result S3ErrorCode (Unit {0})) (d' : ChunkedDecoder)
      → d.options.verify_signatures ≡ true
      → d.decoded < word64
      → chunks_from hmac_sha256 sha256_hex (length body) 0 d.options.seed_signature body d ≡ c
      → after_chunks hmac_sha256 sha256_hex fuel c ≡ some (r, d')
      → (k : Result S3ErrorCode (Bytes × Bytes)) × (e : ChunkedDecoder) × IsRead hmac_sha256
          sha256_hex d.options.seed_signature body d k e
        × (d'.written ≡ e.written)
  after_chunks-signed fuel body d none r d' v w c h = absurd (grind arith)
  after_chunks-signed fuel body d (some (err x, e)) r d' v w c h = (
    err x,
    e,
    chunks_from-IsRead (length body) 0 d.options.seed_signature body d (err x) e v w c,
    grind arith,
  )
  after_chunks-signed fuel body d (some (ok (signature, text), e)) r d' v w c h = (
    ok (signature, text),
    e,
    chunks_from-IsRead (length body) 0 d.options.seed_signature body d (ok (signature, text)) e v w
        c,
    kept (trailer_lines fuel text [] [] e.trailers) h,
  )
    where
      kept :
          (t : Option (Result S3ErrorCode (Bytes × Bytes) × List (Bytes × Bytes)))
          → after_trailers hmac_sha256 sha256_hex signature e t ≡ some (r, d')
          → d'.written ≡ e.written
      kept none k = absurd (grind arith)
      kept (some (err x, trailers)) k = grind arith
      kept (some (ok (canonical, declared), trailers)) k = grind arith

  -- Whatever a decoder that verifies signatures comes to on a body, be it an error in the middle of it,
  -- the pieces that its sink was given are the payloads of chunks that the body starts with, each of
  -- which carries the signature that is expected of it after the one before.
  pub decode-SignedChunks :
      (o : Options) (body : Bytes) (r : Result S3ErrorCode (Unit {0})) (d : ChunkedDecoder)
      → o.verify_signatures ≡ true
      → decode hmac_sha256 sha256_hex body (new_decoder o) ≡ some (r, d)
      → (rest : Bytes) × (last : Bytes) × SignedChunks hmac_sha256 sha256_hex o o.seed_signature
          d.written body rest last
  unfolding decode
  decode-SignedChunks o body r d v h =
      let (k, e, read, same) =
        after_chunks-signed (length body) body (new_decoder o)
          (chunks_from hmac_sha256 sha256_hex (length body) 0 o.seed_signature body (new_decoder o))
          r d v (omega arith) refl h in
      (
        read.rest,
        read.last,
        subst
            (λ w. SignedChunks hmac_sha256 sha256_hex o o.seed_signature w body read.rest read.last)
            (sym (same ∙ read.has_written)) read.has_chunks,
      )
