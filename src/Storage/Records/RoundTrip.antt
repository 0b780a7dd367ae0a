-- ===== src/Storage/Records/RoundTrip.antt =====
-- The wire forms of records, written and read (records.cpp).
use mono_bucket.Base.{
  ℕ, ◌<◌, ◌≤◌, ◌^◌, ◌≡◌, sym, subst, ap, ◌∙◌, true, false, List, [], ◌∷◌, ◌++◌, arith, word64,
  Bytes, length, ok, All, ℤ, pos, negsuc, to_int32,
}
use mono_bucket.Storage.Codec.{Reader, ◌>>=◌, put_varint, get_varint, put_string, get_string}
use mono_bucket.Storage.Codec.RoundTrip.{
  Reads, Reads-bind, Reads-bind_pure, Reads-pure, Reads-varint, Reads-string, Reads-u8,
  Reads-boolean, Reads-many, bind-ok,
}
use mono_bucket.Storage.Records.{
  ContentHeaders, no_headers, CorsRule, put_max_age, put_texts, put_cors_rule, encode_cors_rules,
  bounded, get_texts, max_age_of, get_max_age, get_cors_rule, decode_cors_rules, header_fields,
  count_present, put_fields, encode_content_headers, set_header, get_fields, fields_of,
  decode_content_headers,
}

abbrev pub IsText : Bytes → Type 0
IsText s = length s < word64

-- A max age is absent (-1), or a number that `std::int32_t` holds.
abbrev pub IsMaxAge : ℤ → Type 0
IsMaxAge (pos n) = n < 2 ^ 31
IsMaxAge (negsuc n) = n ≡ 0

abbrev pub IsTexts : List Bytes → Type 0
IsTexts texts = (length texts ≤ 1000) × All IsText texts

pub record IsRule (r : CorsRule) : Type 0 where
  pub id : IsText r.id
  pub origins : IsTexts r.allowed_origins
  pub methods : IsTexts r.allowed_methods
  pub headers : IsTexts r.allowed_headers
  pub exposed : IsTexts r.expose_headers
  pub max_age : IsMaxAge r.max_age_seconds

to_int32-small : (n : ℕ) → n < 2 ^ 31 → to_int32 n ≡ pos n
unfolding to_int32
to_int32-small n h = ground arith

Reads-eq :
    {A : Type 0} {m : Reader A} {bytes : Bytes} {a b : A}
    → a ≡ b
    → Reads m bytes a
    → Reads m bytes b
Reads-eq {m} {bytes} p r = subst (λ x. Reads m bytes x) p r

Reads-max_age : (a : ℤ) → IsMaxAge a → Reads get_max_age (put_max_age a) a
unfolding get_max_age put_max_age
Reads-max_age (pos n) h = Reads-bind _ (Reads-boolean true) (
    Reads-eq (to_int32-small n h)
      (Reads-bind_pure (max_age_of true) (Reads-varint n (omega arith))))
Reads-max_age (negsuc n) h = Reads-bind _ (Reads-boolean false) (
    Reads-eq (ap negsuc (sym h))
      (Reads-bind_pure (max_age_of false) (Reads-varint 0 (omega arith))))

bounded-pure : (limit n : ℕ) (rest : Bytes) → n ≤ limit → bounded limit n rest ≡ ok (n, rest)
unfolding bounded
bounded-pure limit n rest h = ground arith

pub Reads-count :
    (limit n : ℕ)
    → limit < word64
    → n ≤ limit
    → Reads (get_varint >>= bounded limit) (put_varint n) n
Reads-count limit n small h = record {
  at = λ rest.
      bind-ok get_varint (bounded limit) (put_varint n ++ rest) rest n
        ((Reads-varint n (omega arith)).at rest)
      ∙ bounded-pure limit n rest h;
}

All-Reads :
    (texts : List Bytes) → All IsText texts → All (λ x. Reads get_string (put_string x) x) texts
All-Reads [] h = tt
All-Reads (x ∷ xs) (h, hs) = (Reads-string x h, All-Reads xs hs)

Reads-texts : (texts : List Bytes) → IsTexts texts → Reads get_texts (put_texts texts) texts
unfolding get_texts put_texts
Reads-texts texts (short, each) =
    Reads-bind _ (Reads-count 1000 (length texts) (omega arith) short)
      (Reads-many get_string put_string texts (All-Reads texts each))

Reads-cors_rule : (r : CorsRule) → IsRule r → Reads get_cors_rule (put_cors_rule r) r
unfolding get_cors_rule put_cors_rule
Reads-cors_rule r h = Reads-bind _ (Reads-string r.id h.id) (
    Reads-bind _ (Reads-texts r.allowed_origins h.origins) (
      Reads-bind _ (Reads-texts r.allowed_methods h.methods) (
        Reads-bind _ (Reads-texts r.allowed_headers h.headers) (
          Reads-bind _ (Reads-texts r.expose_headers h.exposed)
            (Reads-bind_pure _ (Reads-max_age r.max_age_seconds h.max_age))))))

abbrev pub IsRules : List CorsRule → Type 0
IsRules rules = (length rules ≤ 100) × All IsRule rules

All-rules :
    (rules : List CorsRule)
    → All IsRule rules
    → All (λ x. Reads get_cors_rule (put_cors_rule x) x) rules
All-rules [] h = tt
All-rules (x ∷ xs) (h, hs) = (Reads-cors_rule x h, All-rules xs hs)

-- At most 100 rules, each with texts shorter than 2 ^ 64 bytes, lists of at most 1000 texts and a maximal
-- age that the wire form can hold, are read back from their encoding, whatever bytes follow it.
pub decode-encode_cors_rules :
    (rules : List CorsRule)
    → IsRules rules
    → Reads decode_cors_rules (encode_cors_rules rules) rules
unfolding decode_cors_rules encode_cors_rules
decode-encode_cors_rules rules (short, each) =
    Reads-bind _ (Reads-count 100 (length rules) (omega arith) short)
      (Reads-many get_cors_rule put_cors_rule rules (All-rules rules each))

-- Content headers

apply_fields : List (ℕ × Bytes) → ContentHeaders → ContentHeaders
apply_fields [] h = h
apply_fields ((id, []) ∷ fields) h = apply_fields fields h
apply_fields ((id, c ∷ cs) ∷ fields) h = apply_fields fields (set_header id (c ∷ cs) h)

Reads-fields :
    (fields : List (ℕ × Bytes)) (h : ContentHeaders)
    → All (λ f. IsText f.1) fields
    → Reads (get_fields (count_present fields) h) (put_fields fields) (apply_fields fields h)
unfolding get_fields count_present put_fields apply_fields
Reads-fields [] h each = Reads-pure h
Reads-fields ((id, []) ∷ fields) h (e, es) = Reads-fields fields h es
Reads-fields ((id, c ∷ cs) ∷ fields) h (e, es) =
    Reads-bind _ (Reads-u8 id)
      (Reads-bind _ (Reads-string (c ∷ cs) e) (Reads-fields fields (set_header id (c ∷ cs) h) es))

count_present-le : (fields : List (ℕ × Bytes)) → count_present fields ≤ length fields
unfolding count_present
count_present-le [] = omega arith
count_present-le ((id, []) ∷ fields) = omega (arith, count_present-le fields)
count_present-le ((id, c ∷ cs) ∷ fields) = omega (arith, count_present-le fields)

apply_header_fields : (h : ContentHeaders) → apply_fields (header_fields h) no_headers ≡ h
unfolding apply_fields set_header
apply_header_fields h = ground arith

pub record AreTexts (h : ContentHeaders) : Type 0 where
  pub cache_control : IsText h.cache_control
  pub content_disposition : IsText h.content_disposition
  pub content_encoding : IsText h.content_encoding
  pub content_language : IsText h.content_language
  pub expires : IsText h.expires

fields_of-small : (n : ℕ) → n ≤ 64 → fields_of n ≡ get_fields n no_headers
fields_of-small n h = ground arith

-- Content headers with texts shorter than 2 ^ 64 bytes are read back from their encoding, whatever bytes
-- follow it.
pub decode-encode_content_headers :
    (h : ContentHeaders) → AreTexts h → Reads decode_content_headers (encode_content_headers h) h
unfolding decode_content_headers encode_content_headers
decode-encode_content_headers h texts =
    let few : count_present (header_fields h) ≤ 5 = count_present-le (header_fields h) in
    Reads-bind fields_of (Reads-varint (count_present (header_fields h)) (omega arith)) (
      rw (fields_of-small (count_present (header_fields h)) (omega arith)) (
        Reads-eq (apply_header_fields h) (
          Reads-fields (header_fields h) no_headers (
            texts.cache_control,
            (
              texts.content_disposition,
              (texts.content_encoding, (texts.content_language, (texts.expires, tt))),
            ),
          ))))
