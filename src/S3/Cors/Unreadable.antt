-- ===== src/S3/Cors/Unreadable.antt =====
-- backend/src/s3/cors.cpp and storage/records.cpp: the validation of rules sets no bound on the texts of a
-- rule, and the reader of the stored rules does.
use mono_bucket.Base.{
  ℕ, ◌<◌, ◌≤◌, ◌≡◌, ◌∙◌, List, ◌∷◌, ◌++◌, append_assoc, length, word64, Bytes, ok, err, arith,
}
use mono_bucket.S3.Cors.Validated.{validate_cors_rules-again}
use mono_bucket.S3.Cors.Validation.{validate_cors_rules}
use mono_bucket.Storage.Codec.{
  Reader, DecodeError, list_too_long, ◌>>=◌, get_varint, put_varint, put_many, get_many,
}
use mono_bucket.Storage.Codec.RoundTrip.{Reads, bind-ok, Reads-string, Reads-varint}
use mono_bucket.Storage.Records.{
  CorsRule, bounded, put_texts, get_texts, put_cors_rule, get_cors_rule, encode_cors_rules,
  decode_cors_rules,
}
use mono_bucket.Storage.Records.RoundTrip.{IsText, Reads-count}

-- `m` fails on `bytes`, whatever follows.
record Fails {A : Type 0} (m : Reader A) (bytes : Bytes) (e : DecodeError) : Type 0 where
  at : (rest : Bytes) → m (bytes ++ rest) ≡ err e

module _ {A B : Type 0} where
  bind-err :
      (m : Reader A) (f : A → Reader B) (bytes : Bytes) (e : DecodeError)
      → m bytes ≡ err e
      → (m >>= f) bytes ≡ err e
  bind-err m f bytes e h = rw (h, ◌>>=◌)

  Fails-first :
      {m : Reader A} (f : A → Reader B) {xs : Bytes} (ys : Bytes) {e : DecodeError}
      → Fails m xs e
      → Fails (m >>= f) (xs ++ ys) e
  Fails-first {m} f {xs} ys {e} h = record {
    at = λ rest. rw append_assoc (bind-err m f (xs ++ (ys ++ rest)) e (h.at (ys ++ rest)));
  }

  Fails-bind :
      {m : Reader A} (f : A → Reader B) {xs ys : Bytes} {a : A} {e : DecodeError}
      → Reads m xs a
      → Fails (f a) ys e
      → Fails (m >>= f) (xs ++ ys) e
  Fails-bind {m} f {xs} {ys} {a} r h = record {
    at = λ rest.
        rw append_assoc
          (bind-ok m f (xs ++ (ys ++ rest)) (ys ++ rest) a (r.at (ys ++ rest)) ∙ h.at rest);
  }

bounded-fail : (limit n : ℕ) (rest : Bytes) → limit < n → bounded limit n rest ≡ err list_too_long
unfolding bounded
bounded-fail limit n rest h = ground arith

Fails-count :
    (limit n : ℕ)
    → limit < n
    → n < word64
    → Fails (get_varint >>= bounded limit) (put_varint n) list_too_long
Fails-count limit n long small = record {
  at = λ rest.
      bind-ok get_varint (bounded limit) (put_varint n ++ rest) rest n
        ((Reads-varint n small).at rest)
      ∙ bounded-fail limit n rest long;
}

Fails-texts :
    (texts : List Bytes)
    → 1000 < length texts
    → length texts < word64
    → Fails get_texts (put_texts texts) list_too_long
unfolding get_texts put_texts
Fails-texts texts long small = Fails-first _ _ (Fails-count 1000 (length texts) long small)

Fails-cors_rule :
    (r : CorsRule)
    → IsText r.id
    → 1000 < length r.allowed_origins
    → length r.allowed_origins < word64
    → Fails get_cors_rule (put_cors_rule r) list_too_long
unfolding get_cors_rule put_cors_rule
Fails-cors_rule r id long small =
    Fails-bind _ (Reads-string r.id id) (Fails-first _ _ (Fails-texts r.allowed_origins long small))

Fails-cors_rules :
    (r : CorsRule) (rules : List CorsRule)
    → length (r ∷ rules) ≤ 100
    → Fails get_cors_rule (put_cors_rule r) list_too_long
    → Fails decode_cors_rules (encode_cors_rules (r ∷ rules)) list_too_long
unfolding decode_cors_rules encode_cors_rules put_many get_many
Fails-cors_rules r rules short h =
    Fails-bind _ (Reads-count 100 (length (r ∷ rules)) (omega arith) short) (Fails-first _ _ h)

-- Rules pass the validation, and the first that comes out has more than 1000 origins, as many as fit 64
-- bits, and an id of less than 2 ^ 64 bytes: what is stored of them cannot be read back, whatever follows.
pub decode_cors_rules-unreadable :
    (rules : List CorsRule) (r : CorsRule) (more : List CorsRule) (rest : Bytes)
    → validate_cors_rules rules ≡ ok (r ∷ more)
    → IsText r.id
    → 1000 < length r.allowed_origins
    → length r.allowed_origins < word64
    → decode_cors_rules (encode_cors_rules (r ∷ more) ++ rest) ≡ err list_too_long
decode_cors_rules-unreadable rules r more rest v id long small =
    let (again, simple, short) = validate_cors_rules-again rules (r ∷ more) v in
    (Fails-cors_rules r more short (Fails-cors_rule r id long small)).at rest
