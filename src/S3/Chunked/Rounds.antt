-- ===== src/S3/Chunked/Rounds.antt =====
-- backend/src/s3/chunked.cpp: what a round of the loop over the chunks read.
use mono_bucket.Base.{
  ℕ, ◌+◌, ◌≡◌, refl, inl, inr, false, Option, none, some, ◌++◌, ltb, ◌==◌, if◌then◌else◌, Bytes,
  Result, ok, err, arith, Bool-cases, ==_iff, ◌⊎◌,
}
use mono_bucket.S3.Chunked.{
  Options, Chunk, last_chunk, next_chunk, read_chunk, end_last, end_next, end_chunk, advance,
}
use mono_bucket.S3.Chunked.Framing.{IsFramed, read_chunk-IsFramed, strip_prefix-parts}
use mono_bucket.S3.Chunked.Lines.{max_chunks}
use mono_bucket.S3.Errors.{S3ErrorCode}
use mono_bucket.S3.Range.{strip_prefix}
use mono_bucket.S3.Text.{crlf}

module _ (hmac_sha256 : Bytes → Bytes → Bytes) (sha256_hex : Bytes → Bytes) where
  -- A round that reads a chunk to be written has framed it, and stands after its CRLF.
  pub record IsRound (o : Options) (previous body : Bytes) (size : ℕ)
      (payload signature rest : Bytes) : Type 0 where
    pub chunk : Chunk
    pub framed : IsFramed hmac_sha256 sha256_hex o previous body chunk
    pub sizes : chunk.size ≡ size
    pub payloads : chunk.payload ≡ payload
    pub signatures : chunk.signature ≡ signature
    pub ended : chunk.rest ≡ crlf ++ rest
    pub counts : (size == 0) ≡ false

  pub advance-next_chunk :
      (o : Options) (n : ℕ) (previous body : Bytes) (size : ℕ) (payload signature rest : Bytes)
      → advance hmac_sha256 sha256_hex o n previous body ≡ next_chunk size payload signature rest
      → IsRound o previous body size payload signature rest
  unfolding advance
  advance-next_chunk o n previous body size payload signature rest h =
      elim (Bool-cases (ltb max_chunks (n + 1))) [
        | inl t ↦ absurd (grind arith)
        | inr f ↦ go (read_chunk hmac_sha256 sha256_hex o previous body) refl (grind arith)
      ]
    where
      go :
          (r : Result S3ErrorCode Chunk)
          → read_chunk hmac_sha256 sha256_hex o previous body ≡ r
          → end_chunk hmac_sha256 sha256_hex r ≡ next_chunk size payload signature rest
          → IsRound o previous body size payload signature rest
      go (err e) r h = absurd (grind arith)
      go (ok c) r h = elim (Bool-cases (c.size == 0)) [
        | inl t ↦
            elim (strip_prefix crlf c.rest)
                as (λ s.
                  ((if c.size == 0
                      then end_last hmac_sha256 sha256_hex c.signature c.rest s
                      else end_next hmac_sha256 sha256_hex c.size c.payload c.signature s)
                    ≡ next_chunk size payload signature rest)
                  → IsRound o previous body size payload signature rest) [
                    | none ↦ λ k. absurd (grind arith)
                    | some after ↦ λ k. absurd (grind arith)
                  ]
              h
        | inr f ↦ after c r f (strip_prefix crlf c.rest) refl (grind arith)
      ]
        where
          after :
              (c : Chunk)
              → read_chunk hmac_sha256 sha256_hex o previous body ≡ ok c
              → (c.size == 0) ≡ false
              → (s : Option Bytes) → strip_prefix crlf c.rest ≡ s
              → end_next hmac_sha256 sha256_hex c.size c.payload c.signature s
                ≡ next_chunk size payload signature rest
              → IsRound o previous body size payload signature rest
          after c r f none s h = absurd (grind arith)
          after c r f (some text) s h = record {
            chunk = c;
            framed = read_chunk-IsFramed hmac_sha256 sha256_hex o previous body c r;
            sizes = grind arith;
            payloads = grind arith;
            signatures = grind arith;
            ended = grind (arith, strip_prefix-parts crlf c.rest text s);
            counts = grind arith;
          }

  -- A round that ends the loop has framed a chunk of no bytes, whose CRLF may be missing.
  pub record IsLast (o : Options) (previous body signature rest : Bytes) : Type 0 where
    pub chunk : Chunk
    pub framed : IsFramed hmac_sha256 sha256_hex o previous body chunk
    pub empty : chunk.size ≡ 0
    pub signatures : chunk.signature ≡ signature
    pub ended : (chunk.rest ≡ rest) ⊎ (chunk.rest ≡ crlf ++ rest)

  pub advance-last_chunk :
      (o : Options) (n : ℕ) (previous body signature rest : Bytes)
      → advance hmac_sha256 sha256_hex o n previous body ≡ last_chunk signature rest
      → IsLast o previous body signature rest
  unfolding advance
  advance-last_chunk o n previous body signature rest h =
      elim (Bool-cases (ltb max_chunks (n + 1))) [
        | inl t ↦ absurd (grind arith)
        | inr f ↦ go (read_chunk hmac_sha256 sha256_hex o previous body) refl (grind arith)
      ]
    where
      after :
          (c : Chunk)
          → read_chunk hmac_sha256 sha256_hex o previous body ≡ ok c
          → c.size ≡ 0
          → (s : Option Bytes) → strip_prefix crlf c.rest ≡ s
          → end_last hmac_sha256 sha256_hex c.signature c.rest s ≡ last_chunk signature rest
          → IsLast o previous body signature rest
      after c r f none s h = record {
        chunk = c;
        framed = read_chunk-IsFramed hmac_sha256 sha256_hex o previous body c r;
        empty = f;
        signatures = grind arith;
        ended = inl (grind arith);
      }
      after c r f (some text) s h = record {
        chunk = c;
        framed = read_chunk-IsFramed hmac_sha256 sha256_hex o previous body c r;
        empty = f;
        signatures = grind arith;
        ended = inr (grind (arith, strip_prefix-parts crlf c.rest text s));
      }

      go :
          (r : Result S3ErrorCode Chunk)
          → read_chunk hmac_sha256 sha256_hex o previous body ≡ r
          → end_chunk hmac_sha256 sha256_hex r ≡ last_chunk signature rest
          → IsLast o previous body signature rest
      go (err e) r h = absurd (grind arith)
      go (ok c) r h = elim (Bool-cases (c.size == 0)) [
        | inl t ↦ after c r ((==_iff c.size 0).0 t) (strip_prefix crlf c.rest) refl (grind arith)
        | inr f ↦
            elim (strip_prefix crlf c.rest)
                as (λ s.
                  end_next hmac_sha256 sha256_hex c.size c.payload c.signature s
                    ≡ last_chunk signature rest
                  → IsLast o previous body signature rest) [
                    | none ↦ λ k. absurd (grind arith)
                    | some text ↦ λ k. absurd (grind arith)
                  ]
              (grind arith)
      ]
