-- ===== src/S3/Sigv4/Authorization/Blanks.antt =====
-- backend/src/s3/sigv4.cpp: the canonical value of a header does not depend on how much blank
-- there is around and between its words.
use mono_bucket.Base.{
  ℕ, ◌≡◌, refl, ap, inl, inr, Bool, true, false, [], ◌∷◌, ◌++◌, Bytes, Bool-cases,
}
use mono_bucket.S3.Sigv4.Authorization.{canonical_from, canonical_header_value}
use mono_bucket.S3.Text.{is_blank}

canonical_from_pending_again :
    (pending : Bool) (value : Bytes)
    → canonical_from false false (canonical_from pending false value)
      ≡ canonical_from pending false value
unfolding canonical_from is_blank
canonical_from_pending_again pending [] = refl
canonical_from_pending_again false (c ∷ value) = elim (Bool-cases (is_blank c)) [
  | inl t ↦ rw t (canonical_from_pending_again true value)
  | inr f ↦ rw (f, f) (ap (λ r. c ∷ r) (canonical_from_pending_again false value))
]
canonical_from_pending_again true (c ∷ value) = elim (Bool-cases (is_blank c)) [
  | inl t ↦ rw t (canonical_from_pending_again true value)
  | inr f ↦ rw (f, f) (ap (λ r. 32 ∷ c ∷ r) (canonical_from_pending_again false value))
]

canonical_from_again :
    (value : Bytes)
    → canonical_from false true (canonical_from false true value) ≡ canonical_from false true value
unfolding canonical_from is_blank
canonical_from_again [] = refl
canonical_from_again (c ∷ value) = elim (Bool-cases (is_blank c)) [
  | inl t ↦ rw t (canonical_from_again value)
  | inr f ↦ rw (f, f) (ap (λ r. c ∷ r) (canonical_from_pending_again false value))
]

pub canonical_header_value_again :
    (value : Bytes)
    → canonical_header_value (canonical_header_value value) ≡ canonical_header_value value
unfolding canonical_header_value
canonical_header_value_again value = canonical_from_again value

module _ (b c d : ℕ) (after : Bytes) (p : is_blank b ≡ true) (q : is_blank c ≡ true)
    (r : is_blank d ≡ true) where
  canonical_from_blanks :
      (pending is_empty : Bool) (before : Bytes)
      → canonical_from pending is_empty (before ++ (b ∷ c ∷ after))
        ≡ canonical_from pending is_empty (before ++ (d ∷ after))
  unfolding canonical_from
  canonical_from_blanks pending is_empty [] = rw (p, q, r) refl
  canonical_from_blanks pending true (x ∷ before) = elim (Bool-cases (is_blank x)) [
    | inl t ↦ rw t (canonical_from_blanks false true before)
    | inr f ↦ rw (f, canonical_from_blanks false false before) refl
  ]
  canonical_from_blanks pending false (x ∷ before) = elim (Bool-cases (is_blank x)) [
    | inl t ↦ rw t (canonical_from_blanks true false before)
    | inr f ↦ rw (f, canonical_from_blanks false false before) refl
  ]

  -- Two blanks, each a space or a tab, make the same canonical value as one of either kind, wherever
  -- they stand in the value.
  pub canonical_header_value_blanks :
      (before : Bytes)
      → canonical_header_value (before ++ (b ∷ c ∷ after))
        ≡ canonical_header_value (before ++ (d ∷ after))
  unfolding canonical_header_value
  canonical_header_value_blanks before = canonical_from_blanks false true before
