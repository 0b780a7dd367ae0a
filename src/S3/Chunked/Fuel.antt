-- ===== src/S3/Chunked/Fuel.antt =====
-- backend/src/s3/chunked.cpp: `decode` ends. Each round reads at least the CRLF of a line.
use mono_bucket.Base.{
  ℕ, zero, suc, ◌+◌, ◌≤◌, ◌<◌, ◌≡◌, refl, ap, inl, inr, Bool, true, false, Option, none, some, List,
  [], ◌∷◌, ◌++◌, leb, if◌then◌else◌, Bytes, bytes_eq, length, length-append, codes, Result, ok, err,
  arith,
}
use mono_bucket.S3.Chunked.{
  Options, ChunkedDecoder, Round, refused, last_chunk, next_chunk, advance, accept, chunks_from,
  after_trailers, after_chunks, decode,
}
use mono_bucket.S3.Chunked.Framing.{take_line-parts}
use mono_bucket.S3.Chunked.Lines.{max_trailers, max_chunk_header_bytes, take_line}
use mono_bucket.S3.Chunked.Rounds.{advance-next_chunk, advance-last_chunk}
use mono_bucket.S3.Chunked.Trailers.{
  TrailerLine, refused_line, blank_line, signature_line, header_line, named_line, colon_line,
  read_line, trailer_line, trailer_lines, canonical_line, emplace,
}
use mono_bucket.S3.Errors.{S3ErrorCode, incomplete_body}
use mono_bucket.S3.Range.{split_at_first}
use mono_bucket.S3.Text.{crlf, to_lower, trim}

line_shortens : (line rest body : Bytes) → body ≡ line ++ (crlf ++ rest) → length rest < length body
line_shortens line rest body e = omega (arith, ap length e, length-append line (crlf ++ rest))

module _ (hmac_sha256 : Bytes → Bytes → Bytes) (sha256_hex : Bytes → Bytes) where
  next_shortens :
      (o : Options) (n : ℕ) (previous body : Bytes) (size : ℕ) (payload signature rest : Bytes)
      → advance hmac_sha256 sha256_hex o n previous body ≡ next_chunk size payload signature rest
      → length rest < length body
  next_shortens o n previous body size payload signature rest h =
      let r =
        advance-next_chunk hmac_sha256 sha256_hex o n previous body size payload signature rest h in
      let c = r.chunk in
      let s = line_shortens r.framed.header (c.payload ++ c.rest) body r.framed.is_split in
      omega (arith, s, length-append c.payload c.rest, ap length r.ended)

  last_shortens :
      (o : Options) (n : ℕ) (previous body signature rest : Bytes)
      → advance hmac_sha256 sha256_hex o n previous body ≡ last_chunk signature rest
      → length rest ≤ length body
  last_shortens o n previous body signature rest h =
      let r = advance-last_chunk hmac_sha256 sha256_hex o n previous body signature rest h in
      let c = r.chunk in
      let s = line_shortens r.framed.header (c.payload ++ c.rest) body r.framed.is_split in
      elim r.ended [
        | inl e ↦ omega (arith, s, length-append c.payload c.rest, ap length e)
        | inr e ↦ omega (arith, s, length-append c.payload c.rest, ap length e)
      ]

  abbrev pub Returns : ℕ → ℕ → Bytes → Bytes → ChunkedDecoder → Type 0
  unfolding chunks_from
  Returns fuel n previous body d =
      (r : Result S3ErrorCode (Bytes × Bytes)) × (d' : ChunkedDecoder) × (chunks_from hmac_sha256
          sha256_hex fuel n previous body d
        ≡ some (r, d'))
      × ((previous' rest : Bytes) → r ≡ ok (previous', rest) → length rest ≤ length body)

  pub chunks_from-Returns :
      (fuel n : ℕ) (previous body : Bytes) (d : ChunkedDecoder)
      → length body ≤ fuel
      → Returns fuel n previous body d
  unfolding chunks_from
  chunks_from-Returns fuel n previous [] d h = (_, _, refl, λ p t e. absurd (grind arith))
  chunks_from-Returns zero n previous (c ∷ body) d h = absurd (omega arith)
  chunks_from-Returns (suc fuel) n previous (c ∷ body) d h =
      go
        (λ size payload signature rest short.
          chunks_from-Returns fuel (n + 1) signature rest
            (accept hmac_sha256 sha256_hex size payload d) short)
        (advance hmac_sha256 sha256_hex d.options n previous (c ∷ body)) refl
    where
      go :
          ((size : ℕ) (payload signature rest : Bytes)
            → length rest ≤ fuel
            → Returns fuel (n + 1) signature rest (accept hmac_sha256 sha256_hex size payload d))
          → (a : Round) → advance hmac_sha256 sha256_hex d.options n previous (c ∷ body) ≡ a
          → Returns (suc fuel) n previous (c ∷ body) d
      go later (refused e) a = (err e, d, rw (a, chunks_from) refl, λ p t e. absurd (grind arith))
      go later (last_chunk signature rest) a = (
        ok (signature, rest),
        d,
        rw (a, chunks_from) refl,
        λ p t e. grind (arith, last_shortens d.options n previous (c ∷ body) signature rest a),
      )
      go later (next_chunk size payload signature rest) a =
          let short = next_shortens d.options n previous (c ∷ body) size payload signature rest a in
          let (r, d', e, within) = later size payload signature rest (omega (arith, short, h)) in
          (r, d', rw (a, chunks_from) e, λ p t k. omega (arith, short, within p t k))

-- A line of the trailer block that is not the last leaves a shorter input.
abbrev Shortens : TrailerLine → ℕ → Type 0
Shortens (refused_line e) n = Unit
Shortens blank_line n = Unit
Shortens (signature_line signature rest) n = length rest < n
Shortens (header_line name value rest) n = length rest < n

named_line-Shortens :
    (name value rest : Bytes) (n : ℕ) → length rest < n → Shortens (named_line name value rest) n
named_line-Shortens name value rest n h = go (bytes_eq name (codes "x-amz-trailer-signature"))
  where
    go :
        (b : Bool)
        → Shortens
            (if b then signature_line (to_lower value) rest else header_line name value rest)
            n
    go true = h
    go false = h

trailer_line-Shortens :
    (trailers : List (Bytes × Bytes)) (body : Bytes)
    → Shortens (trailer_line trailers body) (length body)
unfolding trailer_line
trailer_line-Shortens trailers body = line (take_line body max_chunk_header_bytes) refl
  where
    colon :
        (o : Option (Bytes × Bytes)) (rest : Bytes)
        → length rest < length body
        → Shortens (colon_line o rest) (length body)
    colon none rest h = tt
    colon (some (name, value)) rest h =
        named_line-Shortens (to_lower (trim name)) (trim value) rest (length body) h

    limited :
        (b : Bool) (o : Option (Bytes × Bytes)) (rest : Bytes)
        → length rest < length body
        → Shortens (if b then refused_line incomplete_body else colon_line o rest) (length body)
    limited true o rest h = tt
    limited false o rest h = colon o rest h

    line :
        (r : Result S3ErrorCode (Bytes × Bytes))
        → take_line body max_chunk_header_bytes ≡ r
        → Shortens (read_line trailers r) (length body)
    line (err e) t = tt
    line (ok ([], rest)) t = tt
    line (ok (c ∷ l, rest)) t =
        limited (leb max_trailers (length trailers)) (split_at_first b':' (c ∷ l)) rest (
          line_shortens (c ∷ l) rest body
            (take_line-parts body max_chunk_header_bytes (c ∷ l) rest t))

abbrev TrailersReturn : ℕ → Bytes → Bytes → Bytes → List (Bytes × Bytes) → Type 0
unfolding trailer_lines
TrailersReturn fuel body canonical declared trailers =
    (r : Result S3ErrorCode (Bytes × Bytes) × List (Bytes × Bytes)) × (trailer_lines fuel body
        canonical declared trailers
      ≡ some r)

trailer_lines-returns :
    (fuel : ℕ) (body canonical declared : Bytes) (trailers : List (Bytes × Bytes))
    → length body ≤ fuel
    → TrailersReturn fuel body canonical declared trailers
unfolding trailer_lines
trailer_lines-returns fuel [] canonical declared trailers h = (_, refl)
trailer_lines-returns zero (c ∷ body) canonical declared trailers h = absurd (omega arith)
trailer_lines-returns (suc fuel) (c ∷ body) canonical declared trailers h =
    go
      (λ rest canonical' declared' trailers' short.
        trailer_lines-returns fuel rest canonical' declared' trailers' short)
      (trailer_line trailers (c ∷ body)) refl (trailer_line-Shortens trailers (c ∷ body))
  where
    go :
        ((rest canonical' declared' : Bytes) (trailers' : List (Bytes × Bytes))
          → length rest ≤ fuel
          → TrailersReturn fuel rest canonical' declared' trailers')
        → (t : TrailerLine) → trailer_line trailers (c ∷ body) ≡ t
        → Shortens t (length (c ∷ body))
        → TrailersReturn (suc fuel) (c ∷ body) canonical declared trailers
    go later (refused_line e) t s = ((err e, trailers), rw (t, trailer_lines) refl)
    go later blank_line t s = ((ok (canonical, declared), trailers), rw (t, trailer_lines) refl)
    go later (signature_line signature rest) t s =
        let (r, e) = later rest canonical signature trailers (omega (arith, s, h)) in
        (r, rw (t, trailer_lines) e)
    go later (header_line name value rest) t s =
        let (r, e) =
          later rest (canonical ++ canonical_line name value) declared (emplace name value trailers)
            (omega (arith, s, h)) in
        (r, rw (t, trailer_lines) e)

-- Whatever the body, the options and the hashes, the decoder comes to a result.
pub decode-returns :
    (hmac_sha256 : Bytes → Bytes → Bytes) (sha256_hex : Bytes → Bytes) (body : Bytes)
    (d : ChunkedDecoder)
    → (r : Result S3ErrorCode (Unit {0}) × ChunkedDecoder) × (decode hmac_sha256 sha256_hex body d
        ≡ some r)
unfolding decode
decode-returns hmac_sha256 sha256_hex body d =
    let (r, d', e, within) =
      chunks_from-Returns hmac_sha256 sha256_hex (length body) 0 d.options.seed_signature body d
        (omega arith) in
    go r d' e within
  where
    after :
        (previous : Bytes) (d' : ChunkedDecoder) (t : Result S3ErrorCode (Bytes × Bytes))
        (trailers : List (Bytes × Bytes))
        → (r : Result S3ErrorCode (Unit {0}) × ChunkedDecoder) × (after_trailers hmac_sha256
              sha256_hex previous d'
              (some (t, trailers))
            ≡ some r)
    after previous d' (err e) trailers = (_, refl)
    after previous d' (ok (canonical, declared)) trailers = (_, refl)

    go :
        (r : Result S3ErrorCode (Bytes × Bytes)) (d' : ChunkedDecoder)
        → chunks_from hmac_sha256 sha256_hex (length body) 0 d.options.seed_signature body d
          ≡ some (r, d')
        → ((previous' rest : Bytes) → r ≡ ok (previous', rest) → length rest ≤ length body)
        → (r : Result S3ErrorCode (Unit {0}) × ChunkedDecoder) × (after_chunks hmac_sha256
              sha256_hex
              (length body)
              (chunks_from hmac_sha256 sha256_hex (length body) 0 d.options.seed_signature body d)
            ≡ some r)
    go (err e) d' k within = ((err e, d'), rw k refl)
    go (ok (previous, rest)) d' k within =
        let ((t, trailers), m) =
          trailer_lines-returns (length body) rest [] [] d'.trailers (within previous rest refl) in
        let (r, q) = after previous d' t trailers in (r, rw (k, m) q)
