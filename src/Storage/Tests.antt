-- ===== src/Storage/Tests.antt =====
-- The codec, the records and the keys of the store on small inputs.
use mono_bucket.Base.{some, [], ◌∷◌, ◌≡◌, not, ◌&&◌, arith, refl, codes, pos}
use mono_bucket.Storage.Codec.RoundTrip.{Reads}
use mono_bucket.Storage.Records.{
  CorsRule, ContentHeaders, no_headers, encode_cors_rules, decode_cors_rules,
}
use mono_bucket.Storage.Records.RoundTrip.{IsRule, AreTexts, decode-encode_cors_rules}
use mono_bucket.Storage.Keyspace.{object, upper_bound, bound_of, object_prefix, prefix_of}
use mono_bucket.Storage.Keyspace.Ranges.{lex, starts_with, upper_bound-prefix}

abbrev site_rule : CorsRule
site_rule = record {
  id = codes "site";
  allowed_origins = codes "https://a.example" ∷ [];
  allowed_methods = codes "GET" ∷ codes "PUT" ∷ [];
  allowed_headers = [];
  expose_headers = codes "ETag" ∷ [];
  max_age_seconds = pos 3600;
}

site_rule-IsRule : IsRule site_rule
site_rule-IsRule = record {
  id = omega arith;
  origins = omega arith;
  methods = omega arith;
  headers = omega arith;
  exposed = omega arith;
  max_age = omega arith;
}

decode-encode_cors_rules_example :
    Reads decode_cors_rules (encode_cors_rules (site_rule ∷ [])) (site_rule ∷ [])
decode-encode_cors_rules_example =
    decode-encode_cors_rules (site_rule ∷ []) (omega arith, (site_rule-IsRule, tt))

abbrev cached_page : ContentHeaders
cached_page = record no_headers { cache_control = codes "no-store"; expires = codes "0" }

cached_page-AreTexts : AreTexts cached_page
cached_page-AreTexts = record {
  cache_control = omega arith;
  content_disposition = omega arith;
  content_encoding = omega arith;
  content_language = omega arith;
  expires = omega arith;
}

-- "o" "ab" NUL is followed by "o" "ab" 0x01.
ends : upper_bound (object_prefix (codes "ab")) ≡ some (111 ∷ 97 ∷ 98 ∷ 1 ∷ [])
unfolding upper_bound bound_of object_prefix prefix_of
ends = refl

upper_bound-prefix_example :
    (not (lex (object (codes "ab") (codes "k")) (object_prefix (codes "ab")))
      && lex (object (codes "ab") (codes "k")) (111 ∷ 97 ∷ 98 ∷ 1 ∷ []))
    ≡ starts_with (object_prefix (codes "ab")) (object (codes "ab") (codes "k"))
unfolding object object_prefix prefix_of
upper_bound-prefix_example =
    upper_bound-prefix (object_prefix (codes "ab")) (111 ∷ 97 ∷ 98 ∷ 1 ∷ [])
      (object (codes "ab") (codes "k")) (omega arith) ends
