-- ===== src/S3/Cors/Validated.antt =====
-- backend/src/s3/cors.cpp: rules that were validated.
use mono_bucket.Base.{
  suc, ◌≤◌, ◌≡◌, refl, sym, ap, subst, inl, inr, false, List, [], ◌∷◌, ltb, Bytes, bytes_eq, length,
  any, All, ℤ, pos, negsuc, Result, ok, err, bind-parts, arith, Bool-cases,
}
use mono_bucket.S3.Cors.{upper_byte, to_upper}
use mono_bucket.S3.Cors.Decisions.{IsSimple, HasSimple}
use mono_bucket.S3.Cors.Validation.{
  max_rules, allowed_method_names, count_stars, validate_pattern, validate_origins,
  validate_methods, validate_headers, validate_exposed, some_texts, validate_max_age, validate_rule,
  validate_each, validate_cors_rules,
}
use mono_bucket.S3.Errors.{S3ErrorCode, malformed_xml}
use mono_bucket.S3.Text.{lower_byte, to_lower}
use mono_bucket.Storage.Records.{CorsRule}

-- Changing the case twice, and that it leaves the stars.
to_upper_twice : (text : Bytes) → to_upper (to_upper text) ≡ to_upper text
unfolding to_upper upper_byte
to_upper_twice [] = refl
to_upper_twice (c ∷ text) = grind (arith, to_upper_twice text)

to_lower_twice : (text : Bytes) → to_lower (to_lower text) ≡ to_lower text
unfolding to_lower lower_byte
to_lower_twice [] = refl
to_lower_twice (c ∷ text) = grind (arith, to_lower_twice text)

count_stars-to_lower : (text : Bytes) → count_stars (to_lower text) ≡ count_stars text
unfolding count_stars to_lower lower_byte
count_stars-to_lower [] = refl
count_stars-to_lower (c ∷ text) = ground (arith, count_stars-to_lower text)

validate_pattern-IsSimple : (p : Bytes) → validate_pattern p ≡ ok tt → IsSimple p
unfolding validate_pattern
validate_pattern-IsSimple [] h = absurd (grind arith)
validate_pattern-IsSimple (c ∷ p) h = elim (Bool-cases (ltb 1 (count_stars (c ∷ p)))) [
  | inl t ↦ absurd (grind arith)
  | inr f ↦ ground arith
]

validate_pattern-to_lower :
    (p : Bytes) → validate_pattern p ≡ ok tt → validate_pattern (to_lower p) ≡ ok tt
unfolding validate_pattern to_lower
validate_pattern-to_lower [] h = h
validate_pattern-to_lower (c ∷ p) h = rw (count_stars-to_lower (c ∷ p)) h

ok_same : {A : Type 0} (x y : A) → ◌≡◌ {A = Result S3ErrorCode A} (ok x) (ok y) → x ≡ y
ok_same x y h = grind arith

-- What a loop over the texts of a rule leaves passes the loop again, and is left as it is.
validate_origins_again :
    (xs ys : List Bytes)
    → validate_origins xs ≡ ok ys
    → (validate_origins ys ≡ ok ys) × All IsSimple ys
unfolding validate_origins
validate_origins_again [] ys h =
    subst (λ z. (validate_origins z ≡ ok z) × All IsSimple z) (ok_same [] ys h) (refl, tt)
validate_origins_again (x ∷ xs) ys h =
    let (u, p, h1) = bind-parts (validate_pattern x) _ ys h in
    let (zs, q, h2) = bind-parts (validate_origins xs) _ ys h1 in
    let (again, simple) = validate_origins_again xs zs q in
    subst (λ z. (validate_origins z ≡ ok z) × All IsSimple z) (ok_same (x ∷ zs) ys h2)
      (rw (p, again) refl, (validate_pattern-IsSimple x p, simple))

validate_headers_again :
    (xs ys : List Bytes)
    → validate_headers xs ≡ ok ys
    → (validate_headers ys ≡ ok ys) × All IsSimple ys
unfolding validate_headers
validate_headers_again [] ys h =
    subst (λ z. (validate_headers z ≡ ok z) × All IsSimple z) (ok_same [] ys h) (refl, tt)
validate_headers_again (x ∷ xs) ys h =
    let (u, p, h1) = bind-parts (validate_pattern x) _ ys h in
    let (zs, q, h2) = bind-parts (validate_headers xs) _ ys h1 in
    let (again, simple) = validate_headers_again xs zs q in
    let lower = validate_pattern-to_lower x p in
    subst (λ z. (validate_headers z ≡ ok z) × All IsSimple z) (ok_same (to_lower x ∷ zs) ys h2)
      (
        rw (lower, again, to_lower_twice x) refl,
        (validate_pattern-IsSimple (to_lower x) lower, simple),
      )

validate_methods_again :
    (xs ys : List Bytes) → validate_methods xs ≡ ok ys → validate_methods ys ≡ ok ys
unfolding validate_methods
validate_methods_again [] ys h = subst (λ z. validate_methods z ≡ ok z) (ok_same [] ys h) refl
validate_methods_again (x ∷ xs) ys h =
    elim (Bool-cases (any (λ m. bytes_eq m (to_upper x)) allowed_method_names)) [
      | inl t ↦
          let (zs, q, h2) =
            bind-parts (validate_methods xs) (λ rest. ok (to_upper x ∷ rest)) ys
              (rw (t, validate_methods) at h) in
          subst (λ z. validate_methods z ≡ ok z) (ok_same (to_upper x ∷ zs) ys h2)
            (rw (to_upper_twice x, t, validate_methods_again xs zs q) refl)
      | inr f ↦
          let no : ◌≡◌ {A = Result S3ErrorCode (List Bytes)} (err malformed_xml) (ok ys) =
            rw (f, validate_methods) at h in
          absurd (grind arith)
    ]

validate_exposed_again :
    (xs ys : List Bytes) → validate_exposed xs ≡ ok ys → validate_exposed ys ≡ ok ys
unfolding validate_exposed
validate_exposed_again [] ys h = subst (λ z. validate_exposed z ≡ ok z) (ok_same [] ys h) refl
validate_exposed_again ([] ∷ xs) ys h = absurd (grind arith)
validate_exposed_again ((c ∷ x) ∷ xs) ys h =
    let (zs, q, h2) = bind-parts (validate_exposed xs) _ ys h in
    subst (λ z. validate_exposed z ≡ ok z) (ok_same ((c ∷ x) ∷ zs) ys h2)
      (rw (validate_exposed_again xs zs q) refl)

validate_max_age_again : (a b : ℤ) → validate_max_age a ≡ ok b → validate_max_age b ≡ ok b
unfolding validate_max_age
validate_max_age_again (pos n) b h = elim (Bool-cases (ltb 86400 n)) [
  | inl t ↦ absurd (grind arith)
  | inr f ↦ subst (λ z. validate_max_age z ≡ ok z) (ok_same (pos n) b (grind arith)) (rw f refl)
]
validate_max_age_again (negsuc n) b h =
    subst (λ z. validate_max_age z ≡ ok z) (ok_same (negsuc n) b h) refl

-- A loop whose result has an element where its texts have one.
abbrev Keeps : (List Bytes → Result S3ErrorCode (List Bytes)) → Type 0
Keeps check =
    (x : Bytes) (xs ys : List Bytes)
    → check (x ∷ xs) ≡ ok ys
    → (y : Bytes) × (zs : List Bytes) × (ys ≡ y ∷ zs)

validate_origins-Keeps : Keeps validate_origins
unfolding validate_origins
validate_origins-Keeps x xs ys h =
    let (u, p, h1) = bind-parts (validate_pattern x) _ ys h in
    let (zs, q, h2) = bind-parts (validate_origins xs) _ ys h1 in
    (x, zs, sym (ok_same (x ∷ zs) ys h2))

validate_methods-Keeps : Keeps validate_methods
unfolding validate_methods
validate_methods-Keeps x xs ys h =
    elim (Bool-cases (any (λ m. bytes_eq m (to_upper x)) allowed_method_names)) [
      | inl t ↦
          let (zs, q, h2) =
            bind-parts (validate_methods xs) (λ rest. ok (to_upper x ∷ rest)) ys
              (rw (t, validate_methods) at h) in
          (to_upper x, zs, sym (ok_same (to_upper x ∷ zs) ys h2))
      | inr f ↦
          let no : ◌≡◌ {A = Result S3ErrorCode (List Bytes)} (err malformed_xml) (ok ys) =
            rw (f, validate_methods) at h in
          absurd (grind arith)
    ]

some_texts_again :
    (check : List Bytes → Result S3ErrorCode (List Bytes)) (xs ys : List Bytes)
    → Keeps check
    → (check xs ≡ ok ys → check ys ≡ ok ys)
    → some_texts xs (check xs) ≡ ok ys
    → (some_texts ys (check ys) ≡ ok ys) × (check xs ≡ ok ys)
some_texts_again check [] ys keeps again h = absurd (grind arith)
some_texts_again check (x ∷ xs) ys keeps again h =
    let (y, zs, e) = keeps x xs ys h in
    (
      subst (λ z. some_texts z (check z) ≡ ok z) (sym e) (subst (λ z. check z ≡ ok z) e (again h)),
      h,
    )

validate_rule_made :
    (id : Bytes) (os ms hs es : List Bytes) (age : ℤ)
    → some_texts os (validate_origins os) ≡ ok os
    → some_texts ms (validate_methods ms) ≡ ok ms
    → validate_headers hs ≡ ok hs
    → validate_exposed es ≡ ok es
    → validate_max_age age ≡ ok age
    → let r : CorsRule = record {
      id = id;
      allowed_origins = os;
      allowed_methods = ms;
      allowed_headers = hs;
      expose_headers = es;
      max_age_seconds = age;
    } in
      validate_rule r ≡ ok r
unfolding validate_rule
validate_rule_made id os ms hs es age o m h e a = rw (o, m, h, e, a) refl

validate_rule_again :
    (rule checked : CorsRule)
    → validate_rule rule ≡ ok checked
    → (validate_rule checked ≡ ok checked) × HasSimple checked
unfolding validate_rule
validate_rule_again rule checked h =
    let (os, p1, h1) =
      bind-parts (some_texts rule.allowed_origins (validate_origins rule.allowed_origins)) _ checked
        h in
    let (ms, p2, h2) =
      bind-parts (some_texts rule.allowed_methods (validate_methods rule.allowed_methods)) _ checked
        h1 in
    let (hs, p3, h3) = bind-parts (validate_headers rule.allowed_headers) _ checked h2 in
    let (es, p4, h4) = bind-parts (validate_exposed rule.expose_headers) _ checked h3 in
    let (age, p5, h5) = bind-parts (validate_max_age rule.max_age_seconds) _ checked h4 in
    let (o, oh) =
      some_texts_again validate_origins rule.allowed_origins os validate_origins-Keeps
        (λ e. (validate_origins_again rule.allowed_origins os e).0) p1 in
    let (m, mh) =
      some_texts_again validate_methods rule.allowed_methods ms validate_methods-Keeps
        (validate_methods_again rule.allowed_methods ms) p2 in
    let (hd, simple) = validate_headers_again rule.allowed_headers hs p3 in
    let ex = validate_exposed_again rule.expose_headers es p4 in
    let ag = validate_max_age_again rule.max_age_seconds age p5 in
    subst (λ z. (validate_rule z ≡ ok z) × HasSimple z) (ok_same _ checked h5)
      (
        validate_rule_made rule.id os ms hs es age o m hd ex ag,
        ((validate_origins_again rule.allowed_origins os oh).1, simple),
      )

validate_each_again :
    (rules checked : List CorsRule)
    → validate_each rules ≡ ok checked
    → (validate_each checked ≡ ok checked) × All HasSimple checked × (length checked ≡ length rules)
unfolding validate_each
validate_each_again [] checked h =
    subst (λ z. (validate_each z ≡ ok z) × All HasSimple z × (length z ≡ 0)) (ok_same [] checked h)
      (refl, tt, refl)
validate_each_again (rule ∷ rules) checked h =
    let (r, p, h1) = bind-parts (validate_rule rule) _ checked h in
    let (rs, q, h2) = bind-parts (validate_each rules) _ checked h1 in
    let (one, simple) = validate_rule_again rule r p in
    let (many, simples, long) = validate_each_again rules rs q in
    subst (λ z. (validate_each z ≡ ok z) × All HasSimple z × (length z ≡ suc (length rules)))
      (ok_same (r ∷ rs) checked h2) (rw (one, many) refl, (simple, simples), ap (λ n. suc n) long)

-- Rules that were validated are at most a hundred, their patterns have one wildcard at most, and they pass
-- the validation again and are left as they are.
pub validate_cors_rules-again :
    (rules checked : List CorsRule)
    → validate_cors_rules rules ≡ ok checked
    → (validate_cors_rules checked ≡ ok checked)
      × All HasSimple checked
      × (length checked ≤ max_rules)
unfolding validate_cors_rules
validate_cors_rules-again [] checked h = absurd (grind arith)
validate_cors_rules-again (rule ∷ rules) checked h =
    elim (Bool-cases (ltb max_rules (length (rule ∷ rules)))) [
      | inl t ↦ absurd (grind arith)
      | inr f ↦
          let (again, simple, long) = validate_each_again (rule ∷ rules) checked (grind arith) in
          (go checked again long f, simple, ground arith)
    ]
  where
    go :
        (rs : List CorsRule)
        → validate_each rs ≡ ok rs
        → length rs ≡ length (rule ∷ rules)
        → ltb max_rules (length (rule ∷ rules)) ≡ false
        → validate_cors_rules rs ≡ ok rs
    go [] a l f = absurd (omega arith)
    go (r ∷ rs) a l f =
        let short : ltb max_rules (length (r ∷ rs)) ≡ false = ground arith in
        rw (short, validate_cors_rules) a
