-- ===== src/S3/Cors/Validation.antt =====
-- backend/src/s3/cors.cpp: the validation of the rules of a bucket. The messages of the errors are left
-- out.
use mono_bucket.Base.{
  ℕ, suc, not, List, [], ◌∷◌, ltb, ◌==◌, if◌then◌else◌, Bytes, bytes_eq, length, any, codes, ℤ, pos,
  negsuc, Result, ok, err, ◌>>=◌,
}
use mono_bucket.S3.Cors.{to_upper}
use mono_bucket.S3.Errors.{S3ErrorCode, malformed_xml}
use mono_bucket.S3.Text.{to_lower}
use mono_bucket.Storage.Records.{CorsRule}

-- kMaxRules and kAllowedMethods
abbrev pub max_rules : ℕ
max_rules = 100

abbrev pub allowed_method_names : List Bytes
allowed_method_names = codes "GET" ∷ codes "PUT" ∷ codes "POST" ∷ codes "DELETE" ∷ codes "HEAD" ∷ []

unfoldable pub count_stars : Bytes → ℕ
count_stars [] = 0
count_stars (c ∷ pattern) = let rest = count_stars pattern in if c == b'*' then suc rest else rest

unfoldable pub validate_pattern : Bytes → Result S3ErrorCode (Unit {0})
unfolding count_stars
validate_pattern [] = err malformed_xml
validate_pattern (c ∷ pattern) =
    if ltb 1 (count_stars (c ∷ pattern)) then err malformed_xml else ok tt

-- The loops over the texts of a rule.
unfoldable pub validate_origins : List Bytes → Result S3ErrorCode (List Bytes)
unfolding validate_pattern
validate_origins [] = ok []
validate_origins (origin ∷ origins) = do
  checked ← validate_pattern origin
  rest ← validate_origins origins
  ok (origin ∷ rest)

unfoldable pub validate_methods : List Bytes → Result S3ErrorCode (List Bytes)
unfolding to_upper
validate_methods [] = ok []
validate_methods (method ∷ methods) =
    if not (any (λ m. bytes_eq m (to_upper method)) allowed_method_names)
    then err malformed_xml
    else do rest ← validate_methods methods; ok (to_upper method ∷ rest)

unfoldable pub validate_headers : List Bytes → Result S3ErrorCode (List Bytes)
unfolding validate_pattern to_lower
validate_headers [] = ok []
validate_headers (header ∷ headers) = do
  checked ← validate_pattern header
  rest ← validate_headers headers
  ok (to_lower header ∷ rest)

unfoldable pub validate_exposed : List Bytes → Result S3ErrorCode (List Bytes)
validate_exposed [] = ok []
validate_exposed ([] ∷ headers) = err malformed_xml
validate_exposed ((c ∷ header) ∷ headers) = do
  rest ← validate_exposed headers
  ok ((c ∷ header) ∷ rest)

abbrev pub some_texts :
    List Bytes → Result S3ErrorCode (List Bytes) → Result S3ErrorCode (List Bytes)
some_texts [] checked = err malformed_xml
some_texts (text ∷ texts) checked = checked

unfoldable pub validate_max_age : ℤ → Result S3ErrorCode ℤ
validate_max_age (pos n) = if ltb 86400 n then err malformed_xml else ok (pos n)
validate_max_age (negsuc n) = ok (negsuc n)

unfoldable pub validate_rule : CorsRule → Result S3ErrorCode CorsRule
unfolding validate_origins validate_methods validate_headers validate_exposed validate_max_age
validate_rule rule = do
  origins ← some_texts rule.allowed_origins (validate_origins rule.allowed_origins)
  methods ← some_texts rule.allowed_methods (validate_methods rule.allowed_methods)
  headers ← validate_headers rule.allowed_headers
  exposed ← validate_exposed rule.expose_headers
  max_age ← validate_max_age rule.max_age_seconds
  ok (record {
    id = rule.id;
    allowed_origins = origins;
    allowed_methods = methods;
    allowed_headers = headers;
    expose_headers = exposed;
    max_age_seconds = max_age;
  })

unfoldable pub validate_each : List CorsRule → Result S3ErrorCode (List CorsRule)
unfolding validate_rule
validate_each [] = ok []
validate_each (rule ∷ rules) = do
  checked ← validate_rule rule
  rest ← validate_each rules
  ok (checked ∷ rest)

unfoldable pub validate_cors_rules : List CorsRule → Result S3ErrorCode (List CorsRule)
unfolding validate_each
validate_cors_rules [] = err malformed_xml
validate_cors_rules (rule ∷ rules) =
    if ltb max_rules (length (rule ∷ rules))
    then err malformed_xml
    else validate_each (rule ∷ rules)
