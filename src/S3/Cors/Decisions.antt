-- ===== src/S3/Cors/Decisions.antt =====
-- backend/src/s3/cors.cpp: which rule matchCors finds.
use mono_bucket.Base.{
  ◌≤◌, ◌≡◌, refl, ap, ◌↔◌, ◌⊎◌, inl, inr, Bool, true, Option, none, some, List, [], ◌∷◌, ◌++◌,
  Bytes, bytes_eq, bytes_eq_iff, any, all, All, arith, Bool-cases,
}
use mono_bucket.S3.Cors.{
  to_upper, cors_pattern_matches, matches_any, CorsQuery, rule_permits, match_cors,
}
use mono_bucket.S3.Cors.Patterns.{Matches, cors_pattern_matches_iff}
use mono_bucket.S3.Cors.Validation.{count_stars}
use mono_bucket.Storage.Records.{CorsRule}

-- Some element has the property.
unfoldable pub Some {ℓ} : {A : Type ℓ} → (A → Type 0) → List A → Type 0
Some P [] = ⊥
Some P (x ∷ xs) = P x ⊎ Some P xs

-- Patterns with one star at most.
abbrev pub IsSimple : Bytes → Type 0
IsSimple pattern = count_stars pattern ≤ 1

abbrev pub HasSimple : CorsRule → Type 0
HasSimple rule = All IsSimple rule.allowed_origins × All IsSimple rule.allowed_headers

-- What it means that a rule permits a request.
unfoldable pub Permits : CorsRule → CorsQuery → Type 0
unfolding Some Matches to_upper
Permits rule query =
    Some (λ pattern. Matches pattern query.origin) rule.allowed_origins
    × Some (λ m. m ≡ to_upper query.method) rule.allowed_methods
    × All (λ name. Some (λ pattern. Matches pattern name) rule.allowed_headers)
        query.requested_headers

any_iff :
    (p : Bytes → Bool) (P : Bytes → Type 0) (xs : List Bytes)
    → All (λ x. (p x ≡ true) ↔ P x) xs
    → (any p xs ≡ true) ↔ Some P xs
unfolding Some
any_iff p P [] h = (λ e. absurd (grind arith), λ e. absurd e)
any_iff p P (x ∷ xs) (h, hs) = (
  λ e. elim (Bool-cases (p x)) [
    | inl t ↦ inl (h.0 t)
    | inr f ↦ inr ((any_iff p P xs hs).0 (grind arith))
  ],
  λ s. elim s [
    | inl a ↦ let t = h.1 a in grind arith
    | inr b ↦ let t = (any_iff p P xs hs).1 b in ground arith
  ],
)

all_iff :
    (p : Bytes → Bool) (P : Bytes → Type 0) (xs : List Bytes)
    → ((x : Bytes) → (p x ≡ true) ↔ P x)
    → (all p xs ≡ true) ↔ All P xs
all_iff p P [] h = (λ e. tt, λ e. refl)
all_iff p P (x ∷ xs) h = (
  λ e. ((h x).0 (ground arith), (all_iff p P xs h).0 (ground arith)),
  λ (a, b). (let t = (h x).1 a in let u = (all_iff p P xs h).1 b in grind arith),
)

each : {P Q : Bytes → Type 0} → (xs : List Bytes) → ((x : Bytes) → P x → Q x) → All P xs → All Q xs
each [] f h = tt
each (x ∷ xs) f (h, hs) = (f x h, each xs f hs)

matches_any_iff :
    (patterns : List Bytes) (value : Bytes)
    → All IsSimple patterns
    → (matches_any patterns value ≡ true) ↔ Some (λ pattern. Matches pattern value) patterns
unfolding matches_any
matches_any_iff patterns value h =
    any_iff (λ pattern. cors_pattern_matches pattern value) (λ pattern. Matches pattern value)
      patterns (each patterns (λ pattern s. cors_pattern_matches_iff pattern value s) h)

rule_permits_iff :
    (rule : CorsRule) (query : CorsQuery)
    → HasSimple rule
    → (rule_permits rule query ≡ true) ↔ Permits rule query
unfolding rule_permits Permits
rule_permits_iff rule query (o, hs) =
    let origin = matches_any_iff rule.allowed_origins query.origin o in
    let method =
      any_iff (λ m. bytes_eq m (to_upper query.method)) (λ m. m ≡ to_upper query.method)
        rule.allowed_methods
        (every (λ m. bytes_eq_iff m (to_upper query.method)) rule.allowed_methods) in
    let headers =
      all_iff (λ name. matches_any rule.allowed_headers name)
        (λ name. Some (λ pattern. Matches pattern name) rule.allowed_headers)
        query.requested_headers (λ name. matches_any_iff rule.allowed_headers name hs) in
    (
      λ h. (origin.0 (ground arith), method.0 (ground arith), headers.0 (ground arith)),
      λ (a, b, c).
          (let t = origin.1 a in let u = method.1 b in let v = headers.1 c in ground arith),
    )
  where
    every : {P : Bytes → Type 0} → ((x : Bytes) → P x) → (xs : List Bytes) → All P xs
    every f [] = tt
    every f (x ∷ xs) = (f x, every f xs)

-- The first rule that permits the request, if there is one.
unfoldable pub IsFirst : List CorsRule → CorsQuery → Option CorsRule → Type 0
unfolding Permits
IsFirst rules query none = All (λ rule. ¬ (Permits rule query)) rules
IsFirst rules query (some rule) =
    (before : List CorsRule) × (after : List CorsRule) × (rules ≡ before ++ (rule ∷ after))
    × All (λ r. ¬ (Permits r query)) before
    × Permits rule query

-- Where the patterns have one star at most, the decision is the first rule that permits the request: one
-- of its origins matches the origin, its methods have the method in capitals, and each header that is
-- asked about is matched by one of its headers. Where no rule does, there is none.
pub match_cors-IsFirst :
    (rules : List CorsRule) (query : CorsQuery)
    → All HasSimple rules
    → IsFirst rules query (match_cors rules query).rule
unfolding match_cors IsFirst
match_cors-IsFirst [] query h = tt
match_cors-IsFirst (rule ∷ rules) query (h, hs) = elim (Bool-cases (rule_permits rule query)) [
  | inl t ↦ rw (t, match_cors) ([], rules, refl, tt, (rule_permits_iff rule query h).0 t)
  | inr f ↦
      rw (f, match_cors)
        (skip (λ p. grind (arith, (rule_permits_iff rule query h).1 p))
          (match_cors rules query).rule (match_cors-IsFirst rules query hs))
]
  where
    skip :
        (¬ (Permits rule query))
        → (o : Option CorsRule) → IsFirst rules query o
        → IsFirst (rule ∷ rules) query o
    skip n none i = (n, i)
    skip n (some r) (before, after, e, earlier, found) =
        (rule ∷ before, after, ap (λ x. rule ∷ x) e, (n, earlier), found)
