-- ===== src/Storage/Records.antt =====
-- backend/src/storage/records.hpp and records.cpp: bucket records, CORS rules and content headers, with
-- their wire forms. Texts are byte strings here, but for the names of buckets.
pub mod RoundTrip
pub mod Rows
use mono_bucket.Base.{
  ℕ, zero, suc, ◌+◌, ◌%◌, Bool, true, false, ◌&&◌, ◌||◌, not, Option, none, some, List, [], ◌∷◌,
  ◌++◌, ltb, leb, ◌==◌, if◌then◌else◌, String, Bytes, length, all, ℤ, pos, negsuc, to_int32, word64,
}
use mono_bucket.Storage.Codec.{
  Reader, ◌>>=◌, pure, fail, list_too_long, put_varint, get_varint, put_string, get_string,
  put_boolean, get_boolean, put_u8, get_u8, put_many, get_many,
}

pub record ContentHeaders : Type 0 where
  pub cache_control : Bytes
  pub content_disposition : Bytes
  pub content_encoding : Bytes
  pub content_language : Bytes
  pub expires : Bytes

abbrev pub no_headers : ContentHeaders
no_headers = record {
  cache_control = [];
  content_disposition = [];
  content_encoding = [];
  content_language = [];
  expires = [];
}

pub record CorsRule : Type 0 where
  pub id : Bytes
  pub allowed_origins : List Bytes
  pub allowed_methods : List Bytes
  pub allowed_headers : List Bytes
  pub expose_headers : List Bytes
  pub max_age_seconds : ℤ

-- durability.hpp
pub data Durability : Type 0 where
  no_flush relaxed strict : Durability

pub record BucketRecord : Type 0 where
  pub name : String
  pub created_at : ℕ
  pub public_read : Bool
  pub public_list : Bool
  pub policy : Bytes
  pub cors : List CorsRule
  pub quota_bytes : ℕ
  pub durability : Option Durability

-- CORS rules

unfoldable pub put_max_age : ℤ → Bytes
put_max_age (pos n) = put_boolean true ++ put_varint n
put_max_age (negsuc n) = put_boolean false ++ put_varint 0

unfoldable pub put_texts : List Bytes → Bytes
put_texts texts = put_varint (length texts) ++ put_many put_string texts

unfoldable pub put_cors_rule : CorsRule → Bytes
put_cors_rule rule =
    put_string rule.id
    ++ (put_texts rule.allowed_origins
        ++ (put_texts rule.allowed_methods
            ++ (put_texts rule.allowed_headers
                ++ (put_texts rule.expose_headers ++ put_max_age rule.max_age_seconds))))

-- encodeCorsRules
unfoldable pub encode_cors_rules : List CorsRule → Bytes
encode_cors_rules rules = put_varint (length rules) ++ put_many put_cors_rule rules

unfoldable pub bounded : ℕ → ℕ → Reader ℕ
bounded limit count = if ltb limit count then fail list_too_long else pure count

unfoldable pub get_texts : Reader (List Bytes)
get_texts = get_varint >>= bounded 1000 >>= λ n. get_many n get_string

abbrev pub max_age_of : Bool → ℕ → ℤ
max_age_of has n = if has then to_int32 n else negsuc 0

unfoldable pub get_max_age : Reader ℤ
get_max_age = get_boolean >>= λ has. get_varint >>= λ n. pure (max_age_of has n)

unfoldable pub get_cors_rule : Reader CorsRule
get_cors_rule = do
  id ← get_string
  origins ← get_texts
  methods ← get_texts
  headers ← get_texts
  exposed ← get_texts
  max_age ← get_max_age
  pure (record {
    id = id;
    allowed_origins = origins;
    allowed_methods = methods;
    allowed_headers = headers;
    expose_headers = exposed;
    max_age_seconds = max_age;
  })

-- decodeCorsRules
unfoldable pub decode_cors_rules : Reader (List CorsRule)
decode_cors_rules = get_varint >>= bounded 100 >>= λ n. get_many n get_cors_rule

-- Content headers

abbrev pub max_content_header_length : ℕ
max_content_header_length = 1024

unfoldable pub is_storable_header_value : Bytes → Bool
is_storable_header_value value =
    if ltb max_content_header_length (length value)
    then false
    else all (λ c. not (ltb c 0x20 || c == 0x7F)) value

unfoldable pub are_storable_header_values : ContentHeaders → Bool
unfolding is_storable_header_value
are_storable_header_values h =
    is_storable_header_value h.cache_control
    && (is_storable_header_value h.content_disposition
        && (is_storable_header_value h.content_encoding
            && (is_storable_header_value h.content_language && is_storable_header_value h.expires)))

-- The fields with their ids, in the order of `encodeContentHeaders`.
abbrev pub header_fields : ContentHeaders → List (ℕ × Bytes)
header_fields h =
    (1, h.cache_control)
    ∷ (2, h.content_disposition)
    ∷ (3, h.content_encoding)
    ∷ (4, h.content_language)
    ∷ (5, h.expires)
    ∷ []

unfoldable pub count_present : List (ℕ × Bytes) → ℕ
count_present [] = 0
count_present ((id, []) ∷ fields) = count_present fields
count_present ((id, c ∷ cs) ∷ fields) = suc (count_present fields)

unfoldable pub put_fields : List (ℕ × Bytes) → Bytes
put_fields [] = []
put_fields ((id, []) ∷ fields) = put_fields fields
put_fields ((id, c ∷ cs) ∷ fields) = put_u8 id ++ (put_string (c ∷ cs) ++ put_fields fields)

-- encodeContentHeaders
unfoldable pub encode_content_headers : ContentHeaders → Bytes
encode_content_headers h =
    put_varint (count_present (header_fields h)) ++ put_fields (header_fields h)

-- The `switch` on the id; an unknown one is skipped.
unfoldable pub set_header : ℕ → Bytes → ContentHeaders → ContentHeaders
set_header id value h =
    if id == 1
    then record h { cache_control = value }
    else if id == 2
    then record h { content_disposition = value }
    else if id == 3
    then record h { content_encoding = value }
    else if id == 4
    then record h { content_language = value }
    else if id == 5
    then record h { expires = value }
    else h

unfoldable pub get_fields : ℕ → ContentHeaders → Reader ContentHeaders
get_fields zero h = pure h
get_fields (suc n) h = get_u8 >>= λ id. get_string >>= λ value. get_fields n (set_header id value h)

abbrev pub fields_of : ℕ → Reader ContentHeaders
fields_of count = if ltb 64 count then fail list_too_long else get_fields count no_headers

-- decodeContentHeaders
unfoldable pub decode_content_headers : Reader ContentHeaders
decode_content_headers = get_varint >>= fields_of
