-- ===== src/S3/Text/Laws.antt =====
-- backend/src/s3/chunked.cpp and cors.cpp: trimming twice, and splitting at a separator.
use mono_bucket.Base.{
  ℕ, ◌≡◌, refl, ◌∙◌, ap, inl, inr, false, List, [], ◌∷◌, ◌++◌, ◌==◌, Bytes, All, Bool-cases, ==_iff,
}
use mono_bucket.S3.Text.{
  is_blank, trim_front, before_blanks, trim_back, trim, onto_first, split_at_each,
}

-- A text that does not start with a blank.
abbrev pub IsFlush : Bytes → Type 0
unfolding is_blank
IsFlush [] = Unit
IsFlush (c ∷ text) = is_blank c ≡ false

trim_front-IsFlush : (text : Bytes) → IsFlush (trim_front text)
unfolding trim_front
trim_front-IsFlush [] = tt
trim_front-IsFlush (c ∷ text) = elim (Bool-cases (is_blank c)) [
  | inl t ↦ rw t (trim_front-IsFlush text)
  | inr f ↦ rw f f
]

IsFlush-trim_front : (text : Bytes) → IsFlush text → trim_front text ≡ text
unfolding trim_front
IsFlush-trim_front [] h = refl
IsFlush-trim_front (c ∷ text) h = rw h refl

before_blanks-IsFlush : (c : ℕ) (text : Bytes) → is_blank c ≡ false → IsFlush (before_blanks c text)
unfolding IsFlush
before_blanks-IsFlush c [] h = rw h h
before_blanks-IsFlush c (d ∷ text) h = h

trim_back-IsFlush : (text : Bytes) → IsFlush text → IsFlush (trim_back text)
unfolding trim_back
trim_back-IsFlush [] h = tt
trim_back-IsFlush (c ∷ text) h = before_blanks-IsFlush c (trim_back text) h

trim_back-before_blanks :
    (c : ℕ) (text : Bytes)
    → trim_back text ≡ text
    → trim_back (before_blanks c text) ≡ before_blanks c text
unfolding trim_back
trim_back-before_blanks c [] h = elim (Bool-cases (is_blank c)) [
  | inl t ↦ rw t refl
  | inr f ↦ rw (f, f) refl
]
trim_back-before_blanks c (d ∷ text) h = ap (before_blanks c) h

trim_back_twice : (text : Bytes) → trim_back (trim_back text) ≡ trim_back text
unfolding trim_back
trim_back_twice [] = refl
trim_back_twice (c ∷ text) = trim_back-before_blanks c (trim_back text) (trim_back_twice text)

pub trim_twice : (text : Bytes) → trim (trim text) ≡ trim text
unfolding trim
trim_twice text =
    ap trim_back (
      IsFlush-trim_front (trim_back (trim_front text))
        (trim_back-IsFlush (trim_front text) (trim_front-IsFlush text)))
    ∙ trim_back_twice (trim_front text)

module _ (P : ℕ → Type 0) where
  trim_front-All : (text : Bytes) → All P text → All P (trim_front text)
  unfolding trim_front
  trim_front-All [] h = tt
  trim_front-All (c ∷ text) (p, h) = elim (Bool-cases (is_blank c)) [
    | inl t ↦ rw t (trim_front-All text h)
    | inr f ↦ rw f (p, h)
  ]

  before_blanks-All : (c : ℕ) (text : Bytes) → P c → All P text → All P (before_blanks c text)
  unfolding before_blanks
  before_blanks-All c [] p h = elim (Bool-cases (is_blank c)) [
    | inl t ↦ rw t tt
    | inr f ↦ rw f (p, tt)
  ]
  before_blanks-All c (d ∷ text) p h = (p, h)

  trim_back-All : (text : Bytes) → All P text → All P (trim_back text)
  unfolding trim_back
  trim_back-All [] h = tt
  trim_back-All (c ∷ text) (p, h) = before_blanks-All c (trim_back text) p (trim_back-All text h)

  pub trim-All : (text : Bytes) → All P text → All P (trim text)
  unfolding trim
  trim-All text h = trim_back-All (trim_front text) (trim_front-All text h)

-- Bytes other than the separator.
abbrev pub IsWithout : ℕ → Bytes → Type 0
IsWithout sep = All (λ c. (c == sep) ≡ false)

pub split_at_each-IsWithout :
    (sep : ℕ) (text : Bytes) → IsWithout sep text → split_at_each sep text ≡ text ∷ []
unfolding split_at_each
split_at_each-IsWithout sep [] h = refl
split_at_each-IsWithout sep (c ∷ text) (p, h) = rw (p, split_at_each-IsWithout sep text h) refl

split_at_each-some :
    (sep : ℕ) (text : Bytes)
    → (token : Bytes) × (tokens : List Bytes) × (split_at_each sep text ≡ token ∷ tokens)
unfolding split_at_each
split_at_each-some sep [] = ([], [], refl)
split_at_each-some sep (c ∷ text) =
    let (t, ts, e) = split_at_each-some sep text in
    elim (Bool-cases (c == sep)) [
      | inl y ↦ ([], split_at_each sep text, rw y refl)
      | inr n ↦ (c ∷ t, ts, rw (n, e) refl)
    ]

onto_first-append :
    (c sep : ℕ) (text : Bytes) (tokens : List Bytes)
    → onto_first c (split_at_each sep text ++ tokens)
      ≡ onto_first c (split_at_each sep text) ++ tokens
onto_first-append c sep text tokens = let (t, ts, e) = split_at_each-some sep text in rw e refl

pub split_at_each-append :
    (sep : ℕ) (before after : Bytes)
    → split_at_each sep (before ++ (sep ∷ after))
      ≡ split_at_each sep before ++ split_at_each sep after
unfolding split_at_each
split_at_each-append sep [] after = rw ((==_iff sep sep).1 refl) refl
split_at_each-append sep (c ∷ before) after = elim (Bool-cases (c == sep)) [
  | inl t ↦ rw t (ap (λ r. [] ∷ r) (split_at_each-append sep before after))
  | inr f ↦ rw f (
      ap (onto_first c) (split_at_each-append sep before after)
      ∙ onto_first-append c sep before (split_at_each sep after))
]

onto_first-All :
    (sep c : ℕ) (tokens : List Bytes)
    → (c == sep) ≡ false
    → All (IsWithout sep) tokens
    → All (IsWithout sep) (onto_first c tokens)
onto_first-All sep c [] p h = ((p, tt), tt)
onto_first-All sep c (t ∷ tokens) p (q, h) = ((p, q), h)

pub split_at_each-All : (sep : ℕ) (text : Bytes) → All (IsWithout sep) (split_at_each sep text)
unfolding split_at_each
split_at_each-All sep [] = (tt, tt)
split_at_each-All sep (c ∷ text) = elim (Bool-cases (c == sep)) [
  | inl t ↦ rw t (tt, split_at_each-All sep text)
  | inr f ↦ rw f (onto_first-All sep c (split_at_each sep text) f (split_at_each-All sep text))
]
