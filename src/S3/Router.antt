-- ===== src/S3/Router.antt =====
-- backend/src/s3/router.cpp: who a signed request acts as, and whether a request is authorised. What
-- authenticates a signature (sigv4.cpp) and the handlers behind `dispatch` are not modelled here.
pub mod Laws
pub mod Signed
use mono_bucket.Base.{
  ℕ, ◌+◌, String, Bool, true, false, ◌&&◌, Option, none, some, List, [], ◌∷◌, ◌++◌, if◌then◌else◌,
  not, str_eq, Dict, lookup, Result, ok, err,
}
use mono_bucket.Core.Identity.{Role, administrator, BucketGrants, write_access, role_allows, allows}
use mono_bucket.Storage.Records.{BucketRecord}
use mono_bucket.S3.Query.{S3Request}
use mono_bucket.S3.Errors.{S3ErrorCode, access_denied}
use mono_bucket.S3.Operation.{
  Operation, permission_for, is_read_only, get_object, head_object, list_objects_v1,
  list_objects_v2, head_bucket,
}
use mono_bucket.S3.Buckets.{
  Context, AuditEntry, Refusal, role_refused, bucket_refused, Thrown, answered, require_bucket,
}

pub record SignedIdentity : Type 0 where
  pub role : Role
  pub username : String
  pub grants : BucketGrants

-- UserRecord, as far as it decides about a request.
pub record UserRecord : Type 0 where
  pub username : String
  pub role : Role
  pub disabled : Bool
  pub buckets : BucketGrants

abbrev pub root_identity : SignedIdentity
root_identity = record {
  role = administrator;
  username = "";
  grants = record { fallback = write_access; exceptions = [] };
}

abbrev owner_identity : Option UserRecord → Option SignedIdentity
owner_identity none = none
owner_identity (some u) =
    if u.disabled
    then none
    else some (record { role = u.role; username = u.username; grants = u.buckets })

abbrev key_identity : Dict UserRecord → Option String → Option SignedIdentity
key_identity users none = none
key_identity users (some owner) =
    if str_eq owner "" then none else owner_identity (lookup owner users)

-- The middle of `serve`: the owner of the key that verified, `none` where no stored key did.
unfoldable pub identity_of : Bool → Option String → Dict UserRecord → Option SignedIdentity
identity_of used_root_pair owner users =
    if used_root_pair then some root_identity else key_identity users owner

-- An append to the audit log is taken to succeed; where it throws, the code logs that and refuses
-- all the same.
unfoldable pub deny :
    SignedIdentity → S3Request → Refusal → Context → Result S3ErrorCode (Unit {0}) × Context
deny i request why c = (
  err access_denied,
  record c {
    audit = c.audit ++ record { actor = i.username; target = request.resource; refusal = why } ∷ [];
  },
)

unfoldable pub authorize_signed :
    SignedIdentity → S3Request → Operation → Context → Result S3ErrorCode (Unit {0}) × Context
unfolding deny
authorize_signed i request op c =
    let needed = permission_for op in
    if not (role_allows i.role needed)
    then deny i request role_refused c
    else if not (str_eq request.bucket "") && not (allows i.role i.grants request.bucket needed)
    then deny i request bucket_refused c
    else (ok tt, c)

-- The `switch` on the operation: the flag of the bucket that decides.
unfoldable pub published : Operation → BucketRecord → Bool
published get_object b = b.public_read
published head_object b = b.public_read
published list_objects_v1 b = b.public_list
published list_objects_v2 b = b.public_list
published head_bucket b = b.public_list
published _ b = false

abbrev pub served : Bool → Context → Result S3ErrorCode (Unit {0}) × Context
served open_to_all c =
    if open_to_all
    then (ok tt, record c { anonymous = c.anonymous + 1 })
    else (err access_denied, c)

-- Where the bucket is not found, what was thrown leaves `authorize`, and `serve` answers it.
unfoldable pub with_bucket :
    Operation → Result Thrown BucketRecord × Context → Result S3ErrorCode (Unit {0}) × Context
unfolding answered
with_bucket op (ok b, c) = served (published op b) c
with_bucket op (err e, c) = (err (answered e), c)

unfoldable pub authorize_anonymous :
    S3Request → Operation → Context → Result S3ErrorCode (Unit {0}) × Context
unfolding with_bucket
authorize_anonymous request op c =
    if not (is_read_only op)
    then (err access_denied, c)
    else if str_eq request.bucket ""
    then (err access_denied, c)
    else with_bucket op (require_bucket request.bucket c)

unfoldable pub authorize :
    Bool
    → Option SignedIdentity
    → S3Request
    → Operation
    → Context
    → Result S3ErrorCode (Unit {0}) × Context
unfolding authorize_signed authorize_anonymous
authorize true identity request op c = authorize_anonymous request op c
authorize false none request op c = (err access_denied, c)
authorize false (some i) request op c = authorize_signed i request op c
