-- ===== src/S3/Chunked/Encodings.antt =====
-- backend/src/s3/chunked.cpp: the tokens of a Content-Encoding, and the one that is taken out of it.
use mono_bucket.Base.{
  ◌≡◌, refl, ap, inl, inr, Bool, false, ◌||◌, List, [], ◌∷◌, ◌++◌, map, if◌then◌else◌, Bytes,
  bytes_eq, any, All, codes, arith, Bool-cases,
}
use mono_bucket.S3.Chunked.Lines.{no_bytes}
use mono_bucket.S3.Text.{split_at_each, trim}
use mono_bucket.S3.Text.Laws.{
  IsWithout, trim_twice, trim-All, split_at_each-IsWithout, split_at_each-append, split_at_each-All,
}

-- What `forEachEncoding` walks.
unfoldable pub encodings : Bytes → List Bytes
unfolding split_at_each trim
encodings content_encoding = map trim (split_at_each b',' content_encoding)

abbrev pub aws_chunked : Bytes
aws_chunked = codes "aws-chunked"

unfoldable pub is_aws_chunked : Bytes → Bool
unfolding encodings
is_aws_chunked content_encoding =
    any (λ token. bytes_eq token aws_chunked) (encodings content_encoding)

unfoldable pub join_kept : Bytes → List Bytes → Bytes
join_kept out [] = out
join_kept out (token ∷ tokens) =
    if no_bytes token || bytes_eq token aws_chunked
    then join_kept out tokens
    else join_kept (if no_bytes out then token else out ++ (b',' ∷ token)) tokens

unfoldable pub without_aws_chunked : Bytes → Bytes
unfolding encodings join_kept
without_aws_chunked content_encoding = join_kept [] (encodings content_encoding)

any-append :
    (p : Bytes → Bool) (xs ys : List Bytes)
    → any p xs ≡ false
    → any p ys ≡ false
    → any p (xs ++ ys) ≡ false
any-append p [] ys h k = k
any-append p (x ∷ xs) ys h k = grind (arith, any-append p xs ys)

-- Taking one more token, trimmed, that is not aws-chunked.
abbrev one_more : Bytes → Bytes → Bytes
one_more out token = if no_bytes out then token else out ++ (b',' ∷ token)

trimmed-other :
    (text : Bytes)
    → IsWithout b',' text
    → bytes_eq (trim text) aws_chunked ≡ false
    → is_aws_chunked (trim text) ≡ false
unfolding encodings is_aws_chunked
trimmed-other text w f =
    rw (split_at_each-IsWithout b',' (trim text) (trim-All _ text w), trim_twice text, f) refl

map-append : (xs ys : List Bytes) → map trim (xs ++ ys) ≡ map trim xs ++ map trim ys
map-append [] ys = refl
map-append (x ∷ xs) ys = ap (λ t. trim x ∷ t) (map-append xs ys)

one_more-other :
    (out text : Bytes)
    → is_aws_chunked out ≡ false
    → is_aws_chunked (trim text) ≡ false
    → is_aws_chunked (one_more out (trim text)) ≡ false
unfolding is_aws_chunked encodings
one_more-other [] text h f = f
one_more-other (c ∷ out) text h f =
    rw
      (
        split_at_each-append b',' (c ∷ out) (trim text),
        map-append (split_at_each b',' (c ∷ out)) (split_at_each b',' (trim text)),
      )
      (any-append (λ token. bytes_eq token aws_chunked) (map trim (split_at_each b',' (c ∷ out)))
        (map trim (split_at_each b',' (trim text))) h f)

join_kept-other :
    (out : Bytes) (texts : List Bytes)
    → is_aws_chunked out ≡ false
    → All (IsWithout b',') texts
    → is_aws_chunked (join_kept out (map trim texts)) ≡ false
unfolding join_kept
join_kept-other out [] h w = h
join_kept-other out (text ∷ texts) h (w, ws) =
    elim (Bool-cases (no_bytes (trim text) || bytes_eq (trim text) aws_chunked)) [
      | inl t ↦ rw t (join_kept-other out texts h ws)
      | inr f ↦ rw f (
          join_kept-other (one_more out (trim text)) texts
            (one_more-other out text h (trimmed-other text w (grind arith))) ws)
    ]

-- Whatever the header, what is left after aws-chunked was taken out does not declare it.
pub is_aws_chunked-without_aws_chunked :
    (content_encoding : Bytes) → is_aws_chunked (without_aws_chunked content_encoding) ≡ false
unfolding without_aws_chunked encodings is_aws_chunked bytes_eq
is_aws_chunked-without_aws_chunked content_encoding =
    join_kept-other [] (split_at_each b',' content_encoding) refl
      (split_at_each-All b',' content_encoding)
