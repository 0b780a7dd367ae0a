-- ===== src/S3/Cors/Handlers/Laws.antt =====
-- backend/src/s3/cors.cpp: what a preflight tells.
use mono_bucket.Base.{
  ℕ, ◌≡◌, refl, subst, ◌↔◌, ◌⊎◌, inl, inr, String, false, Option, none, some, List, [], ◌∷◌, ◌++◌,
  str_eq, Bytes, Result, ok, err, arith, Bool-cases, All,
}
use mono_bucket.S3.Buckets.{Context, Thrown, s3_exception, row_error, answered, require_bucket}
use mono_bucket.S3.Chunked.Lines.{no_bytes}
use mono_bucket.S3.Cors.{CorsQuery, split_requested_headers, match_cors}
use mono_bucket.S3.Cors.Decisions.{HasSimple, Permits, IsFirst, match_cors-IsFirst}
use mono_bucket.S3.Cors.Handlers.{
  rules_of, caught_rules, HeaderList, rule_answer, preflight_answer, caught_answer,
  handle_preflight,
}
use mono_bucket.S3.Errors.{S3ErrorCode, access_forbidden, internal_error}
use mono_bucket.Storage.Codec.{DecodeError}
use mono_bucket.Storage.Records.Rows.{corrupt_row, unreadable_row}
use mono_bucket.Storage.Records.{CorsRule, BucketRecord}

-- The request that a preflight asks about.
abbrev pub asked : Bytes → Bytes → Bytes → CorsQuery
asked origin method requested = record {
  origin = origin;
  method = method;
  requested_headers = split_requested_headers requested;
}

module _ (decimal : ℕ → Bytes) where
  rule_answer-err :
      (origin : Bytes) (headers : List Bytes) (o : Option CorsRule) (e : S3ErrorCode)
      → rule_answer decimal origin headers o ≡ err e
      → e ≡ access_forbidden
  rule_answer-err origin headers none e h = grind arith
  rule_answer-err origin headers (some rule) e h = absurd (grind arith)

  preflight_answer-err :
      (origin method requested : Bytes) (rules : List CorsRule) (e : S3ErrorCode)
      → preflight_answer decimal origin method requested rules ≡ err e
      → e ≡ access_forbidden
  preflight_answer-err origin method requested [] e h = grind arith
  preflight_answer-err origin method requested (rule ∷ rules) e h =
      let decision = match_cors (rule ∷ rules) (record {
        origin = origin;
        method = method;
        requested_headers = split_requested_headers requested;
      }) in
      rule_answer-err origin decision.allowed_headers decision.rule e h

  caught_answer-err :
      (origin method requested : Bytes) (found : Result Thrown BucketRecord) (e : S3ErrorCode)
      → caught_answer decimal origin method requested (caught_rules found) ≡ err e
      → (e ≡ access_forbidden)
        ⊎ ((e ≡ internal_error)
            × ((why : DecodeError) × (found ≡ err (row_error (unreadable_row why)))))
  unfolding caught_rules answered
  caught_answer-err origin method requested (err (row_error (unreadable_row why))) e h =
      inr (grind arith, (why, refl))
  caught_answer-err origin method requested (err (row_error corrupt_row)) e h = inl (grind arith)
  caught_answer-err origin method requested (err (s3_exception code)) e h = inl (grind arith)
  caught_answer-err origin method requested (ok b) e h =
      inl (preflight_answer-err origin method requested b.cors e h)

  -- A preflight with an origin and a method is refused with one error only, whether the bucket is not
  -- there, has an invalid name, has no rules or has none that permits the request, unless the row of
  -- the bucket cannot be read, where the answer may be an internal error.
  pub handle_preflight-access_forbidden :
      (bucket : String) (origin method requested : Bytes) (c : Context) (e : S3ErrorCode)
      → no_bytes origin ≡ false
      → no_bytes method ≡ false
      → (handle_preflight decimal bucket origin method requested c).0 ≡ err e
      → (e ≡ access_forbidden)
        ⊎ ((e ≡ internal_error)
            × ((why : DecodeError) × ((require_bucket bucket c).0
                  ≡ err (row_error (unreadable_row why)))))
  unfolding handle_preflight
  handle_preflight-access_forbidden bucket origin method requested c e o m h =
      elim (Bool-cases (str_eq bucket "")) [
        | inl t ↦ inl (grind arith)
        | inr f ↦
            caught_answer-err origin method requested (require_bucket bucket c).0 e
              (rw (o, m, f, handle_preflight) at h)
      ]

  rule_answer_iff :
      (origin : Bytes) (headers : List Bytes) (rules : List CorsRule) (query : CorsQuery)
      (o : Option CorsRule)
      → IsFirst rules query o
      → ((hs : HeaderList) × (rule_answer decimal origin headers o ≡ ok hs)) ↔ (
          (before : List CorsRule) × (rule : CorsRule) × (after : List CorsRule) × (rules
            ≡ before ++ (rule ∷ after))
          × Permits rule query)
  unfolding IsFirst
  rule_answer_iff origin headers rules query none i = (
    λ (hs, e). absurd (grind arith),
    λ (before, rule, after, e, p). absurd (apart before rule after (subst (All _) e i) p),
  )
    where
      apart :
          (before : List CorsRule) (rule : CorsRule) (after : List CorsRule)
          → All (λ r. ¬ (Permits r query)) (before ++ (rule ∷ after))
          → ¬ (Permits rule query)
      apart [] rule after (n, ns) = n
      apart (b ∷ before) rule after (n, ns) = apart before rule after ns
  rule_answer_iff origin headers rules query (some rule) i =
      let (before, after, e, earlier, found) = i in
      (λ h. (before, rule, after, e, found), λ h. (_, refl))

  preflight_answer_iff :
      (origin method requested : Bytes) (rules : List CorsRule)
      → All HasSimple rules
      → ((hs : HeaderList) × (preflight_answer decimal origin method requested rules ≡ ok hs)) ↔ (
          (before : List CorsRule) × (rule : CorsRule) × (after : List CorsRule) × (rules
            ≡ before ++ (rule ∷ after))
          × Permits rule (asked origin method requested))
  preflight_answer_iff origin method requested [] h = (
    λ (hs, e). absurd (grind arith),
    λ (before, rule, after, e, p). absurd (none_in before rule after e),
  )
    where
      none_in :
          (before : List CorsRule) (rule : CorsRule) (after : List CorsRule)
          → ¬ ([] ≡ before ++ (rule ∷ after))
      none_in [] rule after e = grind arith
      none_in (b ∷ before) rule after e = grind arith
  preflight_answer_iff origin method requested (rule ∷ rules) h =
      let decision = match_cors (rule ∷ rules) (asked origin method requested) in
      rule_answer_iff origin decision.allowed_headers (rule ∷ rules) (asked origin method requested)
        decision.rule (match_cors-IsFirst (rule ∷ rules) (asked origin method requested) h)

  caught_answer_iff :
      (origin method requested : Bytes) (found : Result Thrown BucketRecord)
      → All HasSimple (rules_of found)
      → ((hs : HeaderList) × (caught_answer decimal origin method requested (caught_rules found)
            ≡ ok hs))
        ↔ ((before : List CorsRule) × (rule : CorsRule) × (after : List CorsRule) × (rules_of found
              ≡ before ++ (rule ∷ after))
            × Permits rule (asked origin method requested))
  unfolding caught_rules
  caught_answer_iff origin method requested (err (row_error (unreadable_row why))) h = (
    λ (hs, e). absurd (grind arith),
    λ x.
        let (hs, e) = (preflight_answer_iff origin method requested [] tt).1 x in
        absurd (grind arith),
  )
  caught_answer_iff origin method requested (err (row_error corrupt_row)) h =
      preflight_answer_iff origin method requested [] tt
  caught_answer_iff origin method requested (err (s3_exception code)) h =
      preflight_answer_iff origin method requested [] tt
  caught_answer_iff origin method requested (ok b) h =
      preflight_answer_iff origin method requested b.cors h

  -- A preflight that names a bucket, an origin and a method is granted exactly when some rule that the
  -- bucket is found with permits what it asks about: the origin, the method and every requested header.
  -- The patterns of the rules have one star at most.
  pub handle_preflight-ok_iff :
      (bucket : String) (origin method requested : Bytes) (c : Context)
      → no_bytes origin ≡ false
      → no_bytes method ≡ false
      → str_eq bucket "" ≡ false
      → All HasSimple (rules_of (require_bucket bucket c).0)
      → ((hs : HeaderList) × ((handle_preflight decimal bucket origin method requested c).0
            ≡ ok hs))
        ↔ ((before : List CorsRule) × (rule : CorsRule) × (after : List CorsRule) × (rules_of
                (require_bucket bucket c).0
              ≡ before ++ (rule ∷ after))
            × Permits rule (asked origin method requested))
  unfolding handle_preflight
  handle_preflight-ok_iff bucket origin method requested c o m b h =
      rw (o, m, b) (caught_answer_iff origin method requested (require_bucket bucket c).0 h)
