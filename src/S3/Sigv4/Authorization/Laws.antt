-- ===== src/S3/Sigv4/Authorization/Laws.antt =====
-- backend/src/s3/sigv4.cpp: what a client writes in an `Authorization` header is read back.
use mono_bucket.Base.{
  ℕ, zero, suc, ◌≤◌, ◌<◌, ◌≡◌, refl, ◌∙◌, ap, inl, inr, false, Option, none, some, [], ◌∷◌, ◌++◌,
  Bytes, bytes_eq, Option-cases, sym, subst, ==_iff, codes, length, length-append, arith, ok,
}
use mono_bucket.S3.Chunked.Framing.{split_at_first-parts}
use mono_bucket.S3.Chunked.Lines.{no_bytes}
use mono_bucket.S3.Range.{split_at_first, strip_prefix}
use mono_bucket.S3.Sigv4.Authorization.{
  CredentialScope, credential_scope, credential_parts, parse_credential, AuthorizationHeader,
  skip_separators, without_spaces, or_all, field_of, next_field, set_field, fields_from, no_header,
  check_header, parse_authorization,
}
use mono_bucket.S3.Text.{split_at_each}
use mono_bucket.S3.Text.Laws.{IsWithout, split_at_each-IsWithout, split_at_each-append}

split_at_first-append :
    (sep : ℕ) (before after : Bytes)
    → IsWithout sep before
    → split_at_first sep (before ++ (sep ∷ after)) ≡ some (before, after)
unfolding split_at_first
split_at_first-append sep [] after h = rw ((==_iff sep sep).1 refl) refl
split_at_first-append sep (c ∷ before) after (p, h) =
    rw (p, split_at_first-append sep before after h) refl

split_at_first-IsWithout :
    (sep : ℕ) (text : Bytes) → IsWithout sep text → split_at_first sep text ≡ none
unfolding split_at_first
split_at_first-IsWithout sep [] h = refl
split_at_first-IsWithout sep (c ∷ text) (p, h) = rw (p, split_at_first-IsWithout sep text h) refl

-- A value that a field can hold: not empty, without a comma, and not ending with a space.
pub record IsValue (value : Bytes) : Type 0 where
  pub is_some : no_bytes value ≡ false
  pub is_one : IsWithout b',' value
  pub is_trimmed : without_spaces value ≡ value

field_of-append :
    (c : ℕ) (name value rest : Bytes)
    → IsWithout b'=' (c ∷ name)
    → IsValue value
    → field_of ((c ∷ name) ++ (b'=' ∷ (value ++ (b',' ∷ rest)))) ≡ some (c ∷ name, (value, rest))
unfolding field_of
field_of-append c name value rest h v =
    rw
      (
        field_of,
        split_at_first-append b'=' (c ∷ name) (value ++ (b',' ∷ rest)) h,
        split_at_first-append b',' value rest v.is_one,
        v.is_trimmed,
      )
      refl

field_of-last :
    (c : ℕ) (name value : Bytes)
    → IsWithout b'=' (c ∷ name)
    → IsValue value
    → field_of ((c ∷ name) ++ (b'=' ∷ value)) ≡ some (c ∷ name, (value, []))
unfolding field_of
field_of-last c name value h v =
    rw
      (
        field_of,
        split_at_first-append b'=' (c ∷ name) value h,
        split_at_first-IsWithout b',' value v.is_one,
        v.is_trimmed,
      )
      refl

fields_from-next_field :
    (fuel : ℕ) (text name field rest : Bytes) (h : AuthorizationHeader)
    → next_field text ≡ some (name, (field, rest))
    → fields_from (suc fuel) text h ≡ fields_from fuel rest (set_field name field h)
unfolding fields_from
fields_from-next_field fuel text name field rest h e = rw (fields_from, e) refl

skip_separators-length : (text : Bytes) → length (skip_separators text) ≤ length text
unfolding skip_separators
skip_separators-length [] = omega arith
skip_separators-length (c ∷ text) = let r = skip_separators-length text in ground arith

fields_from-end : (n : ℕ) (h : AuthorizationHeader) → fields_from n [] h ≡ h
unfolding fields_from next_field
fields_from-end zero h = refl
fields_from-end (suc n) h = refl

or_all-length : (text : Bytes) → length (or_all text (split_at_first b',' text)).1 ≤ length text
or_all-length text = elim (Option-cases (split_at_first b',' text)) [
  | inl none_left ↦ rw none_left (omega arith)
  | inr ((field, rest), e) ↦ rw e (
      omega (
        arith,
        ap length (split_at_first-parts b',' text field rest e),
        length-append field (b',' ∷ rest),
      ))
]

-- What is left after a field is shorter than `n`.
abbrev IsShorter : ℕ → Option (Bytes × (Bytes × Bytes)) → Type 0
IsShorter n none = Unit
IsShorter n (some (name, (field, rest))) = length rest < n

field_of-IsShorter : (text : Bytes) → IsShorter (length text) (field_of text)
unfolding field_of
field_of-IsShorter [] = tt
field_of-IsShorter (c ∷ text) = elim (Option-cases (split_at_first b'=' (c ∷ text))) [
  | inl e ↦ rw (field_of, e) tt
  | inr ((before, after), e) ↦
      rw (field_of, e)
        (omega (
          arith,
          ap length (split_at_first-parts b'=' (c ∷ text) before after e),
          length-append before (b'=' ∷ after),
          or_all-length after,
        ))
]

IsShorter-weaken :
    (m n : ℕ) (o : Option (Bytes × (Bytes × Bytes))) → m ≤ n → IsShorter m o → IsShorter n o
IsShorter-weaken m n none h s = tt
IsShorter-weaken m n (some (name, (field, rest))) h s = omega (arith, h, s)

next_field-IsShorter : (text : Bytes) → IsShorter (length text) (next_field text)
unfolding next_field
next_field-IsShorter text =
    IsShorter-weaken (length (skip_separators text)) (length text) (next_field text)
      (skip_separators-length text) (field_of-IsShorter (skip_separators text))

empty_text : (text : Bytes) → length text ≤ 0 → text ≡ []
empty_text [] h = refl
empty_text (c ∷ text) h = absurd (omega (arith, h))

-- A round of fuel for each byte is enough: more fuel gives the same.
pub fields_from-enough :
    (m n : ℕ) (text : Bytes) (h : AuthorizationHeader)
    → length text ≤ m
    → length text ≤ n
    → fields_from m text h ≡ fields_from n text h
unfolding fields_from
fields_from-enough zero n text h p q = rw (empty_text text p) (sym (fields_from-end n h))
fields_from-enough (suc m) zero text h p q = rw (empty_text text q) (fields_from-end (suc m) h)
fields_from-enough (suc m) (suc n) text h p q = elim (Option-cases (next_field text)) [
  | inl e ↦ rw (fields_from, e) refl
  | inr ((name, (field, rest)), e) ↦
      let s = subst (IsShorter (length text)) e (next_field-IsShorter text) in
      rw (fields_from, e)
        (fields_from-enough m n rest (set_field name field h) (omega (arith, s, p))
          (omega (arith, s, q)))
]

-- The three fields, the way the AWS SDKs write them.
abbrev pub written_authorization : Bytes → Bytes → Bytes → Bytes
written_authorization c s g =
    codes "AWS4-HMAC-SHA256"
    ++ (codes " Credential="
        ++ (c ++ (codes ", SignedHeaders=" ++ (s ++ (codes ", Signature=" ++ g)))))

fields_from-written :
    (n : ℕ) (c s g : Bytes)
    → IsValue c
    → IsValue s
    → IsValue g
    → fields_from
        (suc (suc (suc n)))
        (codes " Credential="
          ++ (c ++ (codes ", SignedHeaders=" ++ (s ++ (codes ", Signature=" ++ g)))))
        no_header
      ≡ record { credential = c; signed_headers = s; signature = g }
unfolding next_field set_field skip_separators bytes_eq
fields_from-written n c s g p q r =
    fields_from-next_field (suc (suc n)) _ (codes "Credential") c _ no_header
      (field_of-append b'C' (codes "redential") c _ (grind arith) p)
    ∙ (fields_from-next_field (suc n) _ (codes "SignedHeaders") s _ _
          (field_of-append b'S' (codes "ignedHeaders") s _ (grind arith) q)
        ∙ fields_from-next_field n _ (codes "Signature") g [] _
            (field_of-last b'S' (codes "ignature") g (grind arith) r)
        ∙ fields_from-end n _)

-- Where the three texts are not empty, hold no comma and do not end with a space, the header that
-- the AWS SDKs write of them is read as these three texts.
pub parse_authorization-written :
    (c s g : Bytes)
    → IsValue c
    → IsValue s
    → IsValue g
    → parse_authorization (written_authorization c s g)
      ≡ ok record { credential = c; signed_headers = s; signature = g }
unfolding parse_authorization check_header strip_prefix
parse_authorization-written c s g p q r =
    let n = length (
      codes "edential="
      ++ (c ++ (codes ", SignedHeaders=" ++ (s ++ (codes ", Signature=" ++ g))))) in
    ap check_header (fields_from-written n c s g p q r) ∙ rw (p.is_some, q.is_some, r.is_some) refl

-- A credential whose parts hold no slash.
abbrev pub IsScope : CredentialScope → Type 0
IsScope s =
    IsWithout b'/' s.access_key
    × (IsWithout b'/' s.date_stamp
        × (IsWithout b'/' s.region × (IsWithout b'/' s.service × IsWithout b'/' s.terminator)))

abbrev pub written_credential : CredentialScope → Bytes
written_credential s = s.access_key ++ (b'/' ∷ credential_scope s)

four_parts :
    (a b c d : Bytes) (rest : Bytes)
    → IsWithout b'/' a
    → IsWithout b'/' b
    → IsWithout b'/' c
    → IsWithout b'/' d
    → split_at_each b'/' (a ++ (b'/' ∷ (b ++ (b'/' ∷ (c ++ (b'/' ∷ (d ++ (b'/' ∷ rest))))))))
      ≡ a ∷ b ∷ c ∷ d ∷ split_at_each b'/' rest
four_parts a b c d rest p q r s =
    rw
      (
        split_at_each-append b'/' a (b ++ (b'/' ∷ (c ++ (b'/' ∷ (d ++ (b'/' ∷ rest)))))),
        split_at_each-append b'/' b (c ++ (b'/' ∷ (d ++ (b'/' ∷ rest)))),
        split_at_each-append b'/' c (d ++ (b'/' ∷ rest)),
        split_at_each-append b'/' d rest,
        split_at_each-IsWithout b'/' a p,
        split_at_each-IsWithout b'/' b q,
        split_at_each-IsWithout b'/' c r,
        split_at_each-IsWithout b'/' d s,
      )
      refl

credential-parts :
    (s : CredentialScope)
    → IsScope s
    → split_at_each b'/' (written_credential s)
      ≡ s.access_key ∷ s.date_stamp ∷ s.region ∷ s.service ∷ s.terminator ∷ []
unfolding credential_scope
credential-parts s (k, (d, (r, (v, t)))) =
    four_parts s.access_key s.date_stamp s.region s.service s.terminator k d r v
    ∙ rw (split_at_each-IsWithout b'/' s.terminator t) refl

pub parse_credential-written :
    (s : CredentialScope) → IsScope s → parse_credential (written_credential s) ≡ ok s
unfolding parse_credential credential_parts
parse_credential-written s h = ap credential_parts (credential-parts s h)

-- What follows a fifth slash is not read.
pub parse_credential-more :
    (s : CredentialScope) (more : Bytes)
    → IsScope s
    → parse_credential (written_credential s ++ (b'/' ∷ more)) ≡ ok s
unfolding parse_credential credential_parts
parse_credential-more s more h = ap credential_parts (
    split_at_each-append b'/' (written_credential s) more
    ∙ ap (λ parts. parts ++ split_at_each b'/' more) (credential-parts s h))
