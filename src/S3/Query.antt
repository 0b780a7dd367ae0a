-- ===== src/S3/Query.antt =====
-- backend/src/s3/uri.hpp and uri.cpp (the lookups in a parsed query), and request.hpp: S3Request.
use mono_bucket.Base.{String, Bool, Option, none, some, List, [], ◌∷◌, if◌then◌else◌, str_eq, any}

pub record QueryParam : Type 0 where
  pub name : String
  pub value : String
  pub has_value : Bool

unfoldable pub find_query : List QueryParam → String → Option String
find_query [] name = none
find_query (p ∷ ps) name = if str_eq p.name name then some p.value else find_query ps name

unfoldable pub has_query : List QueryParam → String → Bool
has_query params name = any (λ p. str_eq p.name name) params

pub record S3Request : Type 0 where
  pub method : String
  pub bucket : String
  pub key : String
  pub query : List QueryParam
  pub resource : String
  pub request_id : String
