-- ===== src/S3/Cors/Tests.antt =====
-- backend/src/s3/cors.cpp on small rules.
use mono_bucket.Base.{
  ℕ, zero, suc, ◌≡◌, ◌≤◌, ◌↔◌, ◌∙◌, subst, sym, All, ◌⊎◌, ◌++◌, refl, true, false, none, List, [],
  ◌∷◌, Bytes, codes, arith, bytes_eq, negsuc, ok, err, lookup,
}
use mono_bucket.S3.Buckets.{Context, row_error, require_bucket, load_bucket}
use mono_bucket.S3.Cors.{cors_pattern_matches}
use mono_bucket.S3.Cors.Decisions.{HasSimple, Permits}
use mono_bucket.S3.Cors.Handlers.{
  HeaderList, rules_of, caught_rules, handle_preflight, handle_put_bucket_cors,
}
use mono_bucket.S3.Cors.Handlers.Laws.{
  asked, handle_preflight-ok_iff, handle_preflight-access_forbidden,
}
use mono_bucket.S3.Cors.Handlers.Changes.{
  IsFresh, require_bucket-IsFresh, handle_put_bucket_cors-succeeds,
  require_bucket-handle_put_bucket_cors, handle_put_bucket_cors-unreadable,
}
use mono_bucket.Storage.Records.Rows.{unreadable_row, encode_row}
use mono_bucket.Storage.Records.Rows.Laws.{IsStorable, decode_row-encode_row}
use mono_bucket.S3.Cors.Patterns.{Matches, cors_pattern_matches_iff}
use mono_bucket.S3.Cors.Unreadable.{decode_cors_rules-unreadable}
use mono_bucket.S3.Cors.Validated.{validate_cors_rules-again}
use mono_bucket.S3.Cors.Validation.{max_rules, count_stars, validate_cors_rules}
use mono_bucket.S3.Errors.{access_forbidden, internal_error}
use mono_bucket.S3.Names.{is_valid_bucket_name, last_byte, bucket_bytes_from, looks_like_ipv4}
use mono_bucket.Core.Identity.{is_base}
use mono_bucket.Storage.Codec.{DecodeError, list_too_long}
use mono_bucket.Storage.Records.{CorsRule, BucketRecord, encode_cors_rules, decode_cors_rules}

abbrev any_site : CorsRule
any_site = record {
  id = [];
  allowed_origins = codes "http://*.x" ∷ [];
  allowed_methods = codes "GET" ∷ [];
  allowed_headers = codes "*" ∷ [];
  expose_headers = [];
  max_age_seconds = negsuc 0;
}

abbrev any_site_text : CorsRule
any_site_text = record any_site { allowed_methods = codes "get" ∷ [] }

abbrev album : BucketRecord
album = record {
  name = "album";
  created_at = 1700000000;
  public_read = false;
  public_list = false;
  policy = [];
  cors = any_site ∷ [];
  quota_bytes = 0;
  durability = none;
}

abbrev with_album : Context
with_album = record {
  buckets = ("album", encode_row album) ∷ [];
  cache = [];
  audit = [];
  anonymous = 0;
}

abbrev decimal_zero : ℕ → Bytes
decimal_zero n = codes "0"

cors_pattern_matches_iff_example :
    (cors_pattern_matches (codes "http://*.x") (codes "http://a.x") ≡ true)
    ↔ Matches (codes "http://*.x") (codes "http://a.x")
unfolding count_stars
cors_pattern_matches_iff_example =
    cors_pattern_matches_iff (codes "http://*.x") (codes "http://a.x") (omega arith)

validate_cors_rules-again_example :
    (validate_cors_rules (any_site ∷ []) ≡ ok (any_site ∷ []))
    × (HasSimple any_site × Unit {0})
    × (1 ≤ max_rules)
unfolding validate_cors_rules bytes_eq
validate_cors_rules-again_example =
    validate_cors_rules-again (any_site_text ∷ []) (any_site ∷ []) refl

-- More origins than the reader takes.
abbrev origins_from : ℕ → List Bytes
origins_from zero = []
origins_from (suc n) = codes "a" ∷ origins_from n

abbrev many_sites : CorsRule
many_sites = record any_site { allowed_origins = origins_from 1001 }

decode_cors_rules-unreadable_example :
    decode_cors_rules (encode_cors_rules (many_sites ∷ []) ++ []) ≡ err list_too_long
unfolding validate_cors_rules bytes_eq
decode_cors_rules-unreadable_example =
    decode_cors_rules-unreadable (many_sites ∷ []) many_sites [] [] refl (omega arith) (omega arith)
      (omega arith)

album-IsStorable : IsStorable album
album-IsStorable = record {
  created_at = omega arith;
  policy = omega arith;
  cors = (
    omega arith,
    (
      record {
        id = omega arith;
        origins = (omega arith, (omega arith, tt));
        methods = (omega arith, (omega arith, tt));
        headers = (omega arith, (omega arith, tt));
        exposed = (omega arith, tt);
        max_age = refl;
      },
      tt,
    ),
  );
  quota = omega arith;
}

valid_album : is_valid_bucket_name (codes "album") ≡ true
unfolding is_valid_bucket_name is_base last_byte bucket_bytes_from looks_like_ipv4
valid_album = refl

album-IsFresh : IsFresh "album" (encode_row album) with_album
unfolding lookup
album-IsFresh = record { valid = valid_album; cold = refl; stored = refl }

album_found : (require_bucket "album" with_album).0 ≡ ok album
unfolding load_bucket
album_found =
    require_bucket-IsFresh "album" (encode_row album) with_album album-IsFresh
    ∙ rw (load_bucket, decode_row-encode_row "album" album album-IsStorable) refl

require_bucket-handle_put_bucket_cors_example :
    (require_bucket "album" (handle_put_bucket_cors "album" (any_site_text ∷ []) with_album).1).0
    ≡ ok album
unfolding validate_cors_rules bytes_eq lookup
require_bucket-handle_put_bucket_cors_example =
    require_bucket-handle_put_bucket_cors "album" (any_site_text ∷ []) (any_site ∷ []) album
      with_album (handle_put_bucket_cors "album" (any_site_text ∷ []) with_album).1 refl
      album-IsStorable refl album-IsStorable.cors
      (handle_put_bucket_cors-succeeds "album" (any_site_text ∷ []) (any_site ∷ []) album with_album
        album-IsFresh album-IsStorable refl)

handle_put_bucket_cors-unreadable_example :
    ((handle_put_bucket_cors "album" (many_sites ∷ []) with_album).0 ≡ ok tt)
    × ((require_bucket "album" (handle_put_bucket_cors "album" (many_sites ∷ []) with_album).1).0
        ≡ err (row_error (unreadable_row list_too_long)))
unfolding validate_cors_rules bytes_eq lookup
handle_put_bucket_cors-unreadable_example =
    handle_put_bucket_cors-unreadable "album" (many_sites ∷ []) many_sites [] album with_album
      valid_album refl refl album-IsStorable refl (omega arith) (omega arith) (omega arith)

handle_preflight-access_forbidden_example :
    (access_forbidden ≡ access_forbidden)
    ⊎ ((access_forbidden ≡ internal_error)
        × ((why : DecodeError) × ((require_bucket "nobody" with_album).0
              ≡ err (row_error (unreadable_row why)))))
unfolding handle_preflight require_bucket is_valid_bucket_name is_base last_byte bucket_bytes_from
    looks_like_ipv4 lookup load_bucket caught_rules
handle_preflight-access_forbidden_example =
    handle_preflight-access_forbidden decimal_zero "nobody" (codes "http://a.x") (codes "GET") []
      with_album access_forbidden refl refl refl

handle_preflight-ok_iff_example :
    ((hs : HeaderList) × ((handle_preflight decimal_zero "album"
          (codes "http://a.x")
          (codes "GET")
          []
          with_album).0
        ≡ ok hs))
    ↔ ((before : List CorsRule) × (rule : CorsRule) × (after : List CorsRule) × (rules_of
            (require_bucket "album" with_album).0
          ≡ before ++ (rule ∷ after))
        × Permits rule (asked (codes "http://a.x") (codes "GET") []))
unfolding count_stars
handle_preflight-ok_iff_example =
    handle_preflight-ok_iff decimal_zero "album" (codes "http://a.x") (codes "GET") [] with_album
      refl refl refl
      (subst (λ r. All HasSimple (rules_of r)) (sym album_found)
        (((omega arith, tt), (omega arith, tt)), tt))
