-- ===== src/S3/Cors/Patterns.antt =====
-- backend/src/s3/cors.cpp: corsPatternMatches decides the language of a pattern with one wildcard.
use mono_bucket.Base.{
  ℕ, zero, suc, ◌+◌, ◌-◌, ◌≤◌, ◌≡◌, refl, ◌∙◌, sym, ap, subst, ◌↔◌, inl, inr, true, false, Option,
  none, some, [], ◌∷◌, ◌++◌, ◌==◌, Bytes, bytes_eq_iff, length, take, drop, length-append,
  append_assoc, take-drop_append, arith, Bool-cases, ==_iff,
}
use mono_bucket.S3.Cors.{match_halves, cors_pattern_matches}
use mono_bucket.S3.Cors.Validation.{count_stars}
use mono_bucket.S3.Names.{bytes_start}
use mono_bucket.S3.Range.{split_at_first}
use mono_bucket.S3.Text.{prepend}

-- What a pattern stands for: a star for any bytes, any other byte for itself.
unfoldable pub Matches : Bytes → Bytes → Type 0
Matches [] value = value ≡ []
Matches (c ∷ pattern) value = elim (c == b'*') [
  | true ↦ (middle : Bytes) × (rest : Bytes) × (value ≡ middle ++ rest) × Matches pattern rest
  | false ↦ (rest : Bytes) × (value ≡ c ∷ rest) × Matches pattern rest
]

-- Without a star, only the pattern itself; with one, what has both halves and anything between them.
Matches-starless :
    (pattern value : Bytes) → count_stars pattern ≡ 0 → Matches pattern value ↔ (pattern ≡ value)
unfolding Matches count_stars
Matches-starless [] value h = (λ m. sym m, λ e. sym e)
Matches-starless (c ∷ pattern) value h = elim (Bool-cases (c == b'*')) [
  | inl t ↦ absurd (grind arith)
  | inr f ↦
      rw (f, Matches)
        (
          λ (rest, e, m).
              ap (λ t. c ∷ t) ((Matches-starless pattern rest (grind arith)).0 m) ∙ sym e,
          λ e. (pattern, sym e, (Matches-starless pattern pattern (grind arith)).1 refl),
        )
]

Matches-halves :
    (prefix suffix value : Bytes)
    → count_stars prefix ≡ 0
    → count_stars suffix ≡ 0
    → Matches (prefix ++ (b'*' ∷ suffix)) value
      ↔ ((middle : Bytes) × (value ≡ prefix ++ (middle ++ suffix)))
unfolding Matches count_stars
Matches-halves [] suffix value h k = (
  λ (middle, rest, e, m).
      (middle, e ∙ ap (λ t. middle ++ t) (sym ((Matches-starless suffix rest k).0 m))),
  λ (middle, e). (middle, suffix, e, (Matches-starless suffix suffix k).1 refl),
)
Matches-halves (c ∷ prefix) suffix value h k = elim (Bool-cases (c == b'*')) [
  | inl t ↦ absurd (grind arith)
  | inr f ↦
      rw (f, Matches)
        (
          λ (rest, e, m).
              (let (middle, p) = (Matches-halves prefix suffix rest (grind arith) k).0 m in
                (middle, e ∙ ap (λ t. c ∷ t) p)),
          λ (middle, e). (
            prefix ++ (middle ++ suffix),
            e,
            (Matches-halves prefix suffix (prefix ++ (middle ++ suffix)) (grind arith) k).1
                (middle, refl),
          ),
        )
]

bytes_start_iff :
    (prefix value : Bytes)
    → (bytes_start prefix value ≡ true) ↔ ((rest : Bytes) × (value ≡ prefix ++ rest))
unfolding bytes_start
bytes_start_iff [] value = (λ h. (value, refl), λ h. refl)
bytes_start_iff (p ∷ prefix) [] = (λ h. absurd (grind arith), λ (r, e). absurd (grind arith))
bytes_start_iff (p ∷ prefix) (c ∷ value) = (
  λ h. (let (rest, e) = (bytes_start_iff prefix value).0 (ground arith) in (rest, grind arith)),
  λ (rest, e). (let later = (bytes_start_iff prefix value).1 (rest, grind arith) in grind arith),
)

drop-append_past : (n k : ℕ) (a b : Bytes) → n ≡ length a + k → drop n (a ++ b) ≡ drop k b
drop-append_past n k [] b h = ap (λ m. drop m b) (omega arith)
drop-append_past zero k (c ∷ a) b h = absurd (omega arith)
drop-append_past (suc n) k (c ∷ a) b h = drop-append_past n k a b (omega arith)

-- The first star, and what stands on its sides.
abbrev IsSplit : Bytes → Option (Bytes × Bytes) → Type 0
unfolding count_stars
IsSplit pattern none = count_stars pattern ≡ 0
IsSplit pattern (some (prefix, suffix)) =
    (pattern ≡ prefix ++ (b'*' ∷ suffix))
    × (count_stars prefix ≡ 0)
    × (count_stars pattern ≡ suc (count_stars suffix))

prepend-IsSplit :
    (c : ℕ) (pattern : Bytes) (o : Option (Bytes × Bytes))
    → (c == b'*') ≡ false
    → IsSplit pattern o
    → IsSplit (c ∷ pattern) (prepend c o)
unfolding count_stars IsSplit
prepend-IsSplit c pattern none f h = rw f h
prepend-IsSplit c pattern (some (prefix, suffix)) f (e, p, n) =
    (ap (λ t. c ∷ t) e, grind arith, grind arith)

split_at_first-IsSplit : (pattern : Bytes) → IsSplit pattern (split_at_first b'*' pattern)
unfolding split_at_first count_stars IsSplit
split_at_first-IsSplit [] = refl
split_at_first-IsSplit (c ∷ pattern) = elim (Bool-cases (c == b'*')) [
  | inl t ↦ rw (t, split_at_first) (ap (λ x. x ∷ pattern) ((==_iff c b'*').0 t), refl, grind arith)
  | inr f ↦
      rw (f, split_at_first)
        (prepend-IsSplit c pattern (split_at_first b'*' pattern) f (split_at_first-IsSplit pattern))
]

-- The two halves of a pattern stand at the ends of a value exactly when it is the halves with anything
-- between them.
match_halves_iff :
    (prefix suffix pattern value : Bytes)
    → (match_halves (some (prefix, suffix)) pattern value ≡ true)
      ↔ ((middle : Bytes) × (value ≡ prefix ++ (middle ++ suffix)))
match_halves_iff prefix suffix pattern value = (parts, whole)
  where
    parts :
        match_halves (some (prefix, suffix)) pattern value ≡ true
        → (middle : Bytes) × (value ≡ prefix ++ (middle ++ suffix))
    parts h =
        let long : length prefix + length suffix ≤ length value = ground arith in
        let (rest, e) = (bytes_start_iff prefix value).0 (ground arith) in
        let n = length value - length suffix in
        let k = n - length prefix in
        let same = (bytes_eq_iff (drop n value) suffix).0 (ground arith) in
        let past = drop-append_past n k prefix rest (omega arith) in
        (
          take k rest,
          e
              ∙ ap (λ t. prefix ++ t)
                  (sym (take-drop_append k rest)
                    ∙ ap (λ t. take k rest ++ t) (sym past ∙ ap (λ t. drop n t) (sym e) ∙ same)),
        )

    whole :
        (middle : Bytes) × (value ≡ prefix ++ (middle ++ suffix))
        → match_halves (some (prefix, suffix)) pattern value ≡ true
    whole (middle, e) =
        let n = length value - length suffix in
        let sizes = ap length e in
        let one = length-append prefix (middle ++ suffix) in
        let two = length-append middle suffix in
        let three = length-append prefix middle in
        let joined = e ∙ sym (append_assoc prefix middle suffix) in
        let place : n ≡ length (prefix ++ middle) + 0 = omega (arith, sizes, one, two, three) in
        let same =
          ap (λ t. drop n t) joined ∙ drop-append_past n 0 (prefix ++ middle) suffix place in
        let start = (bytes_start_iff prefix value).1 (middle ++ suffix, e) in
        let end = (bytes_eq_iff (drop n value) suffix).1 same in
        let long : length prefix + length suffix ≤ length value = omega (arith, sizes, one, two) in
        ground (arith, start, end, long)

-- For a pattern with one star at most, which are the patterns that are stored, the matching decides the
-- language of the pattern: a star stands for any bytes, any other byte for itself.
pub cors_pattern_matches_iff :
    (pattern value : Bytes)
    → count_stars pattern ≤ 1
    → (cors_pattern_matches pattern value ≡ true) ↔ Matches pattern value
unfolding cors_pattern_matches IsSplit
cors_pattern_matches_iff pattern value h =
    go (split_at_first b'*' pattern) (split_at_first-IsSplit pattern)
  where
    go :
        (o : Option (Bytes × Bytes))
        → IsSplit pattern o
        → (match_halves o pattern value ≡ true) ↔ Matches pattern value
    go none i = (
      λ t. (Matches-starless pattern value i).1 ((bytes_eq_iff pattern value).0 t),
      λ m. (bytes_eq_iff pattern value).1 ((Matches-starless pattern value i).0 m),
    )
    go (some (prefix, suffix)) (e, p, n) =
        let halves = Matches-halves prefix suffix value p (omega arith) in
        let test = match_halves_iff prefix suffix pattern value in
        (
          λ t. subst (λ x. Matches x value) (sym e) (halves.1 (test.0 t)),
          λ m. test.1 (halves.0 (subst (λ x. Matches x value) e m)),
        )
