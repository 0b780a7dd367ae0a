-- ===== src/S3/Chunked/Framing.antt =====
-- backend/src/s3/chunked.cpp: what a chunk that was read stood in the body as.
use mono_bucket.Base.{
  ℕ, ◌≡◌, refl, sym, subst, inl, inr, true, false, ◌&&◌, Option, none, some, [], ◌∷◌, ◌++◌, ltb,
  ◌==◌, Bytes, length, take, drop, take-drop_append, length-take, Result, ok, err, arith,
  Bool-cases, ==_iff,
}
use mono_bucket.S3.Chunked.{
  Options, Chunk, expected_signature, verified_chunk, sized_chunk, fields_chunk, line_chunk,
  read_chunk,
}
use mono_bucket.S3.Chunked.Lines.{
  max_chunk_header_bytes, bounded_line, take_line, parse_hex_size, chunk_header_fields, no_bytes,
}
use mono_bucket.S3.Errors.{S3ErrorCode}
use mono_bucket.S3.Range.{strip_prefix, split_at_first}
use mono_bucket.S3.Sigv4.{secure_equals}
use mono_bucket.S3.Sigv4.Compare.{secure_equals_iff}
use mono_bucket.S3.Text.{crlf, prepend, split_at_crlf, to_lower}

prepend-parts :
    (c : ℕ) (o : Option (Bytes × Bytes)) (before after : Bytes)
    → prepend c o ≡ some (before, after)
    → (b : Bytes) × (o ≡ some (b, after)) × (before ≡ c ∷ b)
prepend-parts c none before after h = absurd (grind arith)
prepend-parts c (some (b, a)) before after h = (b, grind arith, grind arith)

-- The texts that a search splits a text into.
pub split_at_crlf-parts :
    (text before after : Bytes)
    → split_at_crlf text ≡ some (before, after)
    → text ≡ before ++ (crlf ++ after)
unfolding split_at_crlf
split_at_crlf-parts [] before after h = absurd (grind arith)
split_at_crlf-parts (c ∷ []) before after h = absurd (grind arith)
split_at_crlf-parts (c ∷ d ∷ text) before after h = elim (Bool-cases (c == 13 && d == 10)) [
  | inl t ↦ grind arith
  | inr f ↦
      let (b, e, p) = prepend-parts c (split_at_crlf (d ∷ text)) before after (grind arith) in
      let later = split_at_crlf-parts (d ∷ text) b after e in grind arith
]

pub strip_prefix-parts :
    (prefix text after : Bytes) → strip_prefix prefix text ≡ some after → text ≡ prefix ++ after
unfolding strip_prefix
strip_prefix-parts [] text after h = grind arith
strip_prefix-parts (p ∷ prefix) [] after h = absurd (grind arith)
strip_prefix-parts (p ∷ prefix) (c ∷ text) after h = elim (Bool-cases (c == p)) [
  | inl t ↦ grind (arith, strip_prefix-parts prefix text after, (==_iff c p).0 t)
  | inr t ↦ absurd (grind arith)
]

pub split_at_first-parts :
    (sep : ℕ) (text before after : Bytes)
    → split_at_first sep text ≡ some (before, after)
    → text ≡ before ++ (sep ∷ after)
unfolding split_at_first
split_at_first-parts sep [] before after h = absurd (grind arith)
split_at_first-parts sep (c ∷ text) before after h = elim (Bool-cases (c == sep)) [
  | inl t ↦ grind arith
  | inr f ↦
      let (b, e, p) = prepend-parts c (split_at_first sep text) before after (grind arith) in
      let later = split_at_first-parts sep text b after e in grind arith
]

pub take_line-parts :
    (input : Bytes) (limit : ℕ) (line rest : Bytes)
    → take_line input limit ≡ ok (line, rest)
    → input ≡ line ++ (crlf ++ rest)
unfolding take_line
take_line-parts input limit line rest h = go (split_at_crlf input) refl h
  where
    go :
        (o : Option (Bytes × Bytes))
        → split_at_crlf input ≡ o
        → bounded_line limit o ≡ ok (line, rest)
        → input ≡ line ++ (crlf ++ rest)
    go none e h = absurd (grind arith)
    go (some (l, r)) e h = elim (Bool-cases (ltb limit (length l))) [
      | inl t ↦ absurd (grind arith)
      | inr f ↦ let parts = split_at_crlf-parts input l r e in grind arith
    ]

-- What a chunk that was read stood in the body as: a header, which gives its size and, where signatures
-- are verified, carries the signature that is expected of its payload; then the payload.
module _ (hmac_sha256 : Bytes → Bytes → Bytes) (sha256_hex : Bytes → Bytes) where
  unfoldable pub IsSigned : Options → Bytes → Bytes → Bytes → Bytes → Type 0
  unfolding expected_signature
  IsSigned o previous signature_text payload signature =
      (o.verify_signatures ≡ true
        → (signature ≡ expected_signature hmac_sha256 sha256_hex o previous payload)
          × (to_lower signature_text ≡ signature))
      × (o.verify_signatures ≡ false → signature ≡ previous)

  pub record IsFramed (o : Options) (previous body : Bytes) (c : Chunk) : Type 0 where
    pub header : Bytes
    pub size_text : Bytes
    pub signature_text : Bytes
    pub is_split : body ≡ header ++ (crlf ++ (c.payload ++ c.rest))
    pub has_fields : chunk_header_fields header ≡ ok (size_text, signature_text)
    pub has_size : parse_hex_size size_text ≡ ok c.size
    pub is_whole : length c.payload ≡ c.size
    pub is_signed : IsSigned o previous signature_text c.payload c.signature
    pub carries : o.verify_signatures ≡ true → no_bytes signature_text ≡ false

  verified :
      (o : Options) (previous signature_text : Bytes) (size : ℕ) (payload rest : Bytes) (c : Chunk)
      → verified_chunk hmac_sha256 sha256_hex o previous signature_text size payload rest ≡ ok c
      → (c.size ≡ size)
        × (c.payload ≡ payload)
        × (c.rest ≡ rest)
        × IsSigned o previous signature_text payload c.signature
  unfolding IsSigned
  verified o previous signature_text size payload rest c h =
      let expected = expected_signature hmac_sha256 sha256_hex o previous payload in
      elim (Bool-cases o.verify_signatures) [
        | inr f ↦ grind arith
        | inl t ↦ elim (Bool-cases (secure_equals expected (to_lower signature_text))) [
          | inr f ↦ absurd (grind arith)
          | inl e ↦
              let same = (secure_equals_iff expected (to_lower signature_text)).0 e in grind arith
        ]
      ]

  sized :
      (o : Options) (previous signature_text body : Bytes) (s : Result S3ErrorCode ℕ) (c : Chunk)
      → sized_chunk hmac_sha256 sha256_hex o previous signature_text body s ≡ ok c
      → (s ≡ ok c.size)
        × (body ≡ c.payload ++ c.rest)
        × (length c.payload ≡ c.size)
        × IsSigned o previous signature_text c.payload c.signature
        × (o.verify_signatures ≡ true → no_bytes signature_text ≡ false)
  sized o previous signature_text body (err e) c h = absurd (grind arith)
  sized o previous signature_text body (ok size) c h =
      elim (Bool-cases (o.verify_signatures && no_bytes signature_text)) [
        | inl t ↦ absurd (grind arith)
        | inr f ↦ elim (Bool-cases (ltb (length body) size)) [
          | inl t ↦ absurd (grind arith)
          | inr g ↦
              let (s, p, r, i) =
                verified o previous signature_text size (take size body) (drop size body) c
                  (grind arith) in
              (
                grind arith,
                grind (arith, take-drop_append size body),
                grind (arith, length-take size body (ground arith)),
                subst (λ t. IsSigned o previous signature_text t c.signature) (sym p) i,
                λ v. grind arith,
              )
        ]
      ]

  pub read_chunk-IsFramed :
      (o : Options) (previous body : Bytes) (c : Chunk)
      → read_chunk hmac_sha256 sha256_hex o previous body ≡ ok c
      → IsFramed o previous body c
  unfolding read_chunk
  read_chunk-IsFramed o previous body c h = line (take_line body max_chunk_header_bytes) refl h
    where
      fields :
          (header after : Bytes) (f : Result S3ErrorCode (Bytes × Bytes))
          → body ≡ header ++ (crlf ++ after)
          → chunk_header_fields header ≡ f
          → fields_chunk hmac_sha256 sha256_hex o previous after f ≡ ok c
          → IsFramed o previous body c
      fields header after (err e) b f h = absurd (grind arith)
      fields header after (ok (size_text, signature_text)) b f h =
          let (s, p, w, i, v) =
            sized o previous signature_text after (parse_hex_size size_text) c h in
          record {
            header = header;
            size_text = size_text;
            signature_text = signature_text;
            is_split = subst (λ t. body ≡ header ++ (crlf ++ t)) p b;
            has_fields = f;
            has_size = s;
            is_whole = w;
            is_signed = i;
            carries = v;
          }

      line :
          (r : Result S3ErrorCode (Bytes × Bytes))
          → take_line body max_chunk_header_bytes ≡ r
          → line_chunk hmac_sha256 sha256_hex o previous r ≡ ok c
          → IsFramed o previous body c
      line (err e) t h = absurd (grind arith)
      line (ok (header, after)) t h =
          fields header after (chunk_header_fields header)
            (take_line-parts body max_chunk_header_bytes header after t) refl h
