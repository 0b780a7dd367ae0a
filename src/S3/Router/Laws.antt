-- ===== src/S3/Router/Laws.antt =====
-- What an authorised request was allowed by (router.cpp: authorize).
use mono_bucket.Base.{
  ℕ, ◌+◌, ◌≡◌, ◌≢◌, ◌↔◌, ◌⊎◌, inl, inr, refl, ap, ◌∙◌, String, true, false, ◌&&◌, Option, none,
  some, [], ◌∷◌, ◌++◌, not, str_eq, lookup, Result, ok, err, arith, eq_iff, Bool-cases, codes,
}
use mono_bucket.Core.Identity.{role_allows, allows}
use mono_bucket.Storage.Records.{BucketRecord}
use mono_bucket.S3.Query.{S3Request}
use mono_bucket.S3.Errors.{S3ErrorCode, access_denied}
use mono_bucket.S3.Operation.{
  Operation, permission_for, is_read_only, get_object, head_object, list_objects_v1,
  list_objects_v2, head_bucket,
}
use mono_bucket.S3.Names.{is_valid_bucket_name}
use mono_bucket.S3.Buckets.{
  load_bucket, Context, Thrown, Refusal, role_refused, bucket_refused, require_bucket,
  bucket_cache_key,
}
use mono_bucket.Storage.Records.Rows.{encode_row}
use mono_bucket.Storage.Records.Rows.Laws.{IsStorable}
use mono_bucket.S3.Buckets.Warm.{require_bucket_twice, cached_view}
use mono_bucket.S3.Router.{
  SignedIdentity, authorize, authorize_signed, authorize_anonymous, published, served, with_bucket,
}

pub authorize_signed-ok :
    (i : SignedIdentity) (request : S3Request) (op : Operation) (c : Context)
    → ((authorize_signed i request op c).0 ≡ ok tt) ↔ (
        (role_allows i.role (permission_for op) ≡ true)
        × ((request.bucket ≡ "")
            ⊎ (allows i.role i.grants request.bucket (permission_for op) ≡ true)))
unfolding authorize_signed
authorize_signed-ok i request op c = ground (arith, eq_iff request.bucket "")

-- A request of a resolved identity passes and changes nothing, or is refused and adds exactly one entry
-- to the audit log, which names the identity and the resource. An append to the log is taken to
-- succeed.
pub authorize_signed_audit :
    (i : SignedIdentity) (request : S3Request) (op : Operation) (c : Context)
    → ((authorize false (some i) request op c ≡ (ok tt, c)))
      ⊎ ((why : Refusal) × (authorize false (some i) request op c ≡ (
        err access_denied,
        record c {
          audit =
              c.audit
              ++ record { actor = i.username; target = request.resource; refusal = why } ∷ [];
        },
      )))
unfolding authorize
authorize_signed_audit i request op c = elim (Bool-cases (role_allows i.role (permission_for op))) [
  | inl allowed ↦
      elim (Bool-cases (
        not (str_eq request.bucket "")
        && not (allows i.role i.grants request.bucket (permission_for op)))) [
          | inl narrowed ↦ inr (bucket_refused, rw (allowed, narrowed))
          | inr wide ↦ inl (rw (allowed, wide))
        ]
  | inr refused ↦ inr (role_refused, rw refused)
]

published_only :
    (op : Operation) (b : BucketRecord)
    → published op b ≡ true
    → (((op ≡ get_object) ⊎ (op ≡ head_object)) × (b.public_read ≡ true))
      ⊎ (((op ≡ list_objects_v1) ⊎ (op ≡ list_objects_v2) ⊎ (op ≡ head_bucket))
          × (b.public_list ≡ true))
unfolding published
published_only get_object b h = inl (inl refl, h)
published_only head_object b h = inl (inr refl, h)
published_only list_objects_v1 b h = inr (inl refl, h)
published_only list_objects_v2 b h = inr (inr (inl refl), h)
published_only head_bucket b h = inr (inr (inr refl), h)
published_only _ b h = cc

with_bucket_only :
    (op : Operation) (o : Result Thrown BucketRecord × Context)
    → (with_bucket op o).0 ≡ ok tt
    → (b : BucketRecord) × (o.0 ≡ ok b)
      × ((((op ≡ get_object) ⊎ (op ≡ head_object)) × (b.public_read ≡ true))
          ⊎ (((op ≡ list_objects_v1) ⊎ (op ≡ list_objects_v2) ⊎ (op ≡ head_bucket))
              × (b.public_list ≡ true)))
unfolding with_bucket
with_bucket_only op (ok b, c) h = (b, refl, published_only op b (ground arith))
with_bucket_only op (err e, c) h = cc

named_bucket :
    (request : S3Request) (op : Operation) (c : Context)
    → (authorize_anonymous request op c).0 ≡ ok tt
    → (request.bucket ≢ "") × ((with_bucket op (require_bucket request.bucket c)).0 ≡ ok tt)
unfolding authorize_anonymous
named_bucket request op c h = ground (arith, eq_iff request.bucket "")

-- A request with no credentials passes only if it reads an object of a bucket published for
-- reading, or lists, or probes, a bucket published for listing.
pub authorize_anonymous_only :
    (identity : Option SignedIdentity) (request : S3Request) (op : Operation) (c : Context)
    → (authorize true identity request op c).0 ≡ ok tt
    → (request.bucket ≢ "")
      × ((b : BucketRecord) × ((require_bucket request.bucket c).0 ≡ ok b)
          × ((((op ≡ get_object) ⊎ (op ≡ head_object)) × (b.public_read ≡ true))
              ⊎ (((op ≡ list_objects_v1) ⊎ (op ≡ list_objects_v2) ⊎ (op ≡ head_bucket))
                  × (b.public_list ≡ true))))
unfolding authorize
authorize_anonymous_only identity request op c h =
    let named = named_bucket request op c h in
    (named.0, with_bucket_only op (require_bucket request.bucket c) named.1)

valid-ne-nil : (name : String) → is_valid_bucket_name (codes name) ≡ true → name ≢ ""
unfolding is_valid_bucket_name
valid-ne-nil name h e = let k : is_valid_bucket_name (codes "") ≡ true = rw e at h in cc

require_bucket-anonymous :
    (name : String) (n : ℕ) (c : Context)
    → (require_bucket name (record c { anonymous = n })).0 ≡ (require_bucket name c).0
unfolding require_bucket load_bucket
require_bucket-anonymous name n c = ground arith

with_bucket-list :
    (o : Result Thrown BucketRecord × Context) (r : BucketRecord)
    → o.0 ≡ ok r
    → with_bucket list_objects_v2 o ≡ served r.public_list o.1
unfolding published with_bucket
with_bucket-list (ok b, c) r e = ground arith
with_bucket-list (err x, c) r e = ground arith

list_anonymously :
    (request : S3Request) (r : BucketRecord) (c : Context)
    → request.bucket ≢ ""
    → (require_bucket request.bucket c).0 ≡ ok r
    → authorize_anonymous request list_objects_v2 c
      ≡ served r.public_list (require_bucket request.bucket c).1
unfolding authorize_anonymous is_read_only
list_anonymously request r c named found =
    ground
      (arith, eq_iff request.bucket "", with_bucket-list (require_bucket request.bucket c) r found)

-- A bucket with a valid name and a storable record is published for listing, and is in the store and
-- not in the cache: an anonymous request that lists it is allowed, and the same request after it is
-- refused.
pub listing_forgotten :
    (request : S3Request) (r : BucketRecord) (c : Context)
    → is_valid_bucket_name (codes request.bucket) ≡ true
    → IsStorable r
    → r.public_list ≡ true
    → lookup request.bucket c.buckets ≡ some (encode_row r)
    → lookup (bucket_cache_key request.bucket) c.cache ≡ none
    → ((authorize true none request list_objects_v2 c).0 ≡ ok tt)
      × ((authorize true none request list_objects_v2
            (authorize true none request list_objects_v2 c).1).0
          ≡ err access_denied)
unfolding authorize
listing_forgotten request r c valid storable listed stored cold =
    let answers = require_bucket_twice request.bucket r c valid storable stored cold in
    let named = valid-ne-nil request.bucket valid in
    let warm = (require_bucket request.bucket c).1 in
    let served_once : Context = record warm { anonymous = warm.anonymous + 1 } in
    let first : authorize_anonymous request list_objects_v2 c ≡ (ok tt, served_once) =
      ground
        (arith, list_anonymously request (record r { name = request.bucket }) c named answers.0) in
    let second =
      list_anonymously request (cached_view request.bucket r) served_once named
        (require_bucket-anonymous request.bucket (warm.anonymous + 1) warm ∙ answers.1) in
    (ap (λ (o : Result S3ErrorCode (Unit {0}) × Context). o.0) first, ground (arith, first, second))
