-- ===== src/S3/Cors/Handlers.antt =====
-- backend/src/s3/cors.cpp: the requests about the rules of a bucket, the preflight, and the headers that
-- a response gets. The headers of the HTTP request are arguments; the headers of a response are a list.
-- The parser of the XML document is not modelled: `handle_put_bucket_cors` takes what it extracted. The
-- texts that explain a refusal are left out, and the common headers of every response.
pub mod Changes
pub mod Laws
use mono_bucket.Base.{
  ℕ, String, Bool, true, false, ◌&&◌, ◌||◌, Option, none, some, List, [], ◌∷◌, ◌++◌, if◌then◌else◌,
  str_eq, Bytes, codes, Dict, lookup, insert, ℤ, pos, negsuc, Result, ok, err,
}
use mono_bucket.S3.Buckets.{
  Context, Thrown, s3_exception, row_error, answered, require_bucket, invalidate_bucket,
}
use mono_bucket.Storage.Records.Rows.{RowError, corrupt_row, unreadable_row, encode_row, decode_row}
use mono_bucket.S3.Chunked.Lines.{no_bytes}
use mono_bucket.S3.Cors.{join, split_requested_headers, CorsQuery, CorsDecision, match_cors}
use mono_bucket.S3.Cors.Validation.{validate_cors_rules}
use mono_bucket.S3.Errors.{
  S3ErrorCode, access_forbidden, invalid_request, no_such_bucket, no_such_cors_configuration,
}
use mono_bucket.Storage.Records.{CorsRule, BucketRecord}

-- StorageEngine::setBucketCors, on the rows of the context: the row is read, and the record is written
-- again with the rules.
abbrev pub write_cors :
    String
    → List CorsRule
    → Result RowError BucketRecord
    → Context
    → Result S3ErrorCode (Unit {0}) × Context
write_cors name rules (err e) c = (err (answered (row_error e)), c)
write_cors name rules (ok b) c =
    (ok tt, record c { buckets = insert name (encode_row (record b { cors = rules })) c.buckets })

abbrev pub change_cors :
    String → List CorsRule → Option Bytes → Context → Result S3ErrorCode (Unit {0}) × Context
change_cors name rules none c = (err no_such_bucket, c)
change_cors name rules (some row) c = write_cors name rules (decode_row name row) c

unfoldable pub store_cors :
    String → List CorsRule → Context → Result S3ErrorCode (Unit {0}) × Context
unfolding encode_row decode_row
store_cors name rules c = change_cors name rules (lookup name c.buckets) c

-- The rules that a bucket was found with, and none where it was not found.
abbrev pub rules_of : Result Thrown BucketRecord → List CorsRule
rules_of (err e) = []
rules_of (ok b) = b.cors

-- The `catch` clauses of the preflight and of the headers: an S3Exception and a StorageError leave no
-- rules, and a DecodeError is neither.
unfoldable pub caught_rules : Result Thrown BucketRecord → Result S3ErrorCode (List CorsRule)
unfolding answered
caught_rules (err (row_error (unreadable_row e))) = err (answered (row_error (unreadable_row e)))
caught_rules (err (row_error corrupt_row)) = ok []
caught_rules (err (s3_exception code)) = ok []
caught_rules (ok b) = ok b.cors

abbrev pub configured : Result Thrown BucketRecord → Result S3ErrorCode (List CorsRule)
configured (err e) = err (answered e)
configured (ok b) = elim b.cors [
  | [] ↦ err no_such_cors_configuration
  | rule ∷ rules ↦ ok (rule ∷ rules)
]

-- The rules that are rendered.
unfoldable pub handle_get_bucket_cors :
    String → Context → Result S3ErrorCode (List CorsRule) × Context
handle_get_bucket_cors bucket c =
    let found = require_bucket bucket c in (configured found.0, found.1)

-- What follows the change: the entry of the bucket leaves the cache.
abbrev pub after_change :
    String → Result S3ErrorCode (Unit {0}) × Context → Result S3ErrorCode (Unit {0}) × Context
after_change bucket (err e, c) = (err e, c)
after_change bucket (ok tt, c) = (ok tt, invalidate_bucket bucket c)

abbrev pub put_rules :
    String → Result S3ErrorCode (List CorsRule) → Context → Result S3ErrorCode (Unit {0}) × Context
put_rules bucket (err e) c = (err e, c)
put_rules bucket (ok rules) c = after_change bucket (store_cors bucket rules c)

abbrev pub put_found :
    String
    → Result S3ErrorCode (List CorsRule)
    → Result Thrown BucketRecord × Context
    → Result S3ErrorCode (Unit {0}) × Context
put_found bucket rules (err e, c) = (err (answered e), c)
put_found bucket rules (ok b, c) = put_rules bucket rules c

unfoldable pub handle_put_bucket_cors :
    String → List CorsRule → Context → Result S3ErrorCode (Unit {0}) × Context
unfolding store_cors
handle_put_bucket_cors bucket extracted c =
    put_found bucket (validate_cors_rules extracted) (require_bucket bucket c)

unfoldable pub handle_delete_bucket_cors :
    String → Context → Result S3ErrorCode (Unit {0}) × Context
unfolding store_cors
handle_delete_bucket_cors bucket c = put_found bucket (ok []) (require_bucket bucket c)

abbrev pub HeaderList : Type 0
HeaderList = List (String × Bytes)

-- A header that is added where its texts are not empty.
unfoldable pub add_joined_header : String → List Bytes → HeaderList
add_joined_header name [] = []
add_joined_header name (text ∷ texts) = (name, join (text ∷ texts) (codes ", ")) ∷ []

module _ (decimal : ℕ → Bytes) where
  abbrev pub max_age_header : ℤ → HeaderList
  max_age_header (pos n) = ("Access-Control-Max-Age", decimal n) ∷ []
  max_age_header (negsuc n) = []

  abbrev pub rule_answer : Bytes → List Bytes → Option CorsRule → Result S3ErrorCode HeaderList
  rule_answer origin allowed_headers none = err access_forbidden
  rule_answer origin allowed_headers (some rule) = ok (
      ("Access-Control-Allow-Origin", origin)
      ∷ ("Access-Control-Allow-Methods", join rule.allowed_methods (codes ", "))
      ∷ ("Access-Control-Allow-Credentials", codes "true")
      ∷ ("Vary", codes "Origin, Access-Control-Request-Method, Access-Control-Request-Headers")
      ∷ (add_joined_header "Access-Control-Allow-Headers" allowed_headers
          ++ (add_joined_header "Access-Control-Expose-Headers" rule.expose_headers
              ++ max_age_header rule.max_age_seconds)))

  abbrev pub answer : Bytes → CorsDecision → Result S3ErrorCode HeaderList
  answer origin decision = rule_answer origin decision.allowed_headers decision.rule

  abbrev pub preflight_answer :
      Bytes → Bytes → Bytes → List CorsRule → Result S3ErrorCode HeaderList
  preflight_answer origin method requested [] = err access_forbidden
  preflight_answer origin method requested (rule ∷ rules) = answer origin (
      match_cors (rule ∷ rules) (record {
        origin = origin;
        method = method;
        requested_headers = split_requested_headers requested;
      }))

  abbrev pub caught_answer :
      Bytes → Bytes → Bytes → Result S3ErrorCode (List CorsRule) → Result S3ErrorCode HeaderList
  caught_answer origin method requested (err e) = err e
  caught_answer origin method requested (ok rules) = preflight_answer origin method requested rules

  unfoldable pub handle_preflight :
      String → Bytes → Bytes → Bytes → Context → Result S3ErrorCode HeaderList × Context
  unfolding add_joined_header caught_rules
  handle_preflight bucket origin method requested c =
      if no_bytes origin || no_bytes method
      then (err invalid_request, c)
      else if str_eq bucket ""
      then (err access_forbidden, c)
      else let found = require_bucket bucket c in
        (caught_answer origin method requested (caught_rules found.0), found.1)

-- applyCorsHeaders: the headers that are added to the response of a request.
abbrev pub origin_headers : Bytes → CorsDecision → HeaderList
origin_headers origin decision = elim decision.rule [
  | none ↦ []
  | some rule ↦
      ("Access-Control-Allow-Origin", origin)
      ∷ ("Access-Control-Allow-Methods", join rule.allowed_methods (codes ", "))
      ∷ ("Access-Control-Allow-Credentials", codes "true")
      ∷ add_joined_header "Access-Control-Expose-Headers" rule.expose_headers
]

abbrev pub caught_headers :
    Bytes → Bytes → Result S3ErrorCode (List CorsRule) → Result S3ErrorCode HeaderList
caught_headers method origin (err e) = err e
caught_headers method origin (ok rules) = ok (
    ("Vary", codes "Origin")
    ∷ origin_headers origin
        (match_cors rules (record { origin = origin; method = method; requested_headers = [] })))

-- `serve` calls it outside its `try` block: an error here is an exception that leaves `serve` too.
unfoldable pub apply_cors_headers :
    String → Bytes → Bytes → Context → Result S3ErrorCode HeaderList × Context
unfolding add_joined_header caught_rules
apply_cors_headers bucket method origin c =
    if no_bytes origin
    then (ok [], c)
    else if str_eq bucket ""
    then (ok (("Vary", codes "Origin") ∷ []), c)
    else let found = require_bucket bucket c in
      (caught_headers method origin (caught_rules found.0), found.1)
