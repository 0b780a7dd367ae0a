-- ===== src/S3/Router/Signed.antt =====
-- backend/src/s3/router.cpp and operation.cpp, with core/identity.cpp: what a signed request may do, told
-- by which operations only read.
use mono_bucket.Base.{
  ◌≡◌, ◌≢◌, ◌↔◌, ◌⊎◌, inl, inr, refl, Bool, true, false, Option, none, some, String, ok, arith,
}
use mono_bucket.Core.Identity.{
  Role, administrator, operator, read_only, Permission, bucket_read, bucket_write, object_read,
  object_write, BucketAccess, none_access, read_access, write_access, for_bucket, role_allows,
  permits,
}
use mono_bucket.Core.Identity.Laws.{allows-narrows}
use mono_bucket.S3.Buckets.{Context}
use mono_bucket.S3.Operation.{
  Operation, permission_for, is_read_only, list_buckets, create_bucket, delete_bucket, head_bucket,
  list_objects_v1, list_objects_v2, list_multipart_uploads, delete_objects, get_bucket_location,
  get_bucket_versioning, get_bucket_policy, put_bucket_policy, delete_bucket_policy, get_bucket_acl,
  put_bucket_acl, get_bucket_cors, put_bucket_cors, delete_bucket_cors, preflight, get_object,
  head_object, put_object, delete_object, create_multipart_upload, upload_part, list_parts,
  complete_multipart_upload, abort_multipart_upload, unsupported, method_not_allowed,
}
use mono_bucket.S3.Query.{S3Request}
use mono_bucket.S3.Router.{SignedIdentity, authorize}
use mono_bucket.S3.Router.Laws.{authorize_signed-ok}

-- A permission that reads, or one that writes, a bucket or an object.
abbrev IsKind : Bool → Permission → Type 0
IsKind true p = (p ≡ bucket_read) ⊎ (p ≡ object_read)
IsKind false p = (p ≡ bucket_write) ⊎ (p ≡ object_write)

permission_for-IsKind :
    (op : Operation) → op ≢ preflight → IsKind (is_read_only op) (permission_for op)
unfolding is_read_only permission_for
permission_for-IsKind list_buckets h = inl refl
permission_for-IsKind create_bucket h = inl refl
permission_for-IsKind delete_bucket h = inl refl
permission_for-IsKind head_bucket h = inl refl
permission_for-IsKind list_objects_v1 h = inl refl
permission_for-IsKind list_objects_v2 h = inl refl
permission_for-IsKind list_multipart_uploads h = inl refl
permission_for-IsKind delete_objects h = inr refl
permission_for-IsKind get_bucket_location h = inl refl
permission_for-IsKind get_bucket_versioning h = inl refl
permission_for-IsKind get_bucket_policy h = inl refl
permission_for-IsKind put_bucket_policy h = inl refl
permission_for-IsKind delete_bucket_policy h = inl refl
permission_for-IsKind get_bucket_acl h = inl refl
permission_for-IsKind put_bucket_acl h = inl refl
permission_for-IsKind get_bucket_cors h = inl refl
permission_for-IsKind put_bucket_cors h = inl refl
permission_for-IsKind delete_bucket_cors h = inl refl
permission_for-IsKind preflight h = absurd (h refl)
permission_for-IsKind get_object h = inr refl
permission_for-IsKind head_object h = inr refl
permission_for-IsKind put_object h = inr refl
permission_for-IsKind delete_object h = inr refl
permission_for-IsKind create_multipart_upload h = inr refl
permission_for-IsKind upload_part h = inr refl
permission_for-IsKind list_parts h = inr refl
permission_for-IsKind complete_multipart_upload h = inr refl
permission_for-IsKind abort_multipart_upload h = inr refl
permission_for-IsKind unsupported h = inr refl
permission_for-IsKind method_not_allowed h = inr refl

-- An operation that reads, or one that may write.
abbrev RoleMay : Role → Bool → Type 0
RoleMay role reads = (role ≡ administrator) ⊎ (role ≡ operator) ⊎ (reads ≡ true)

role_allows-kind :
    (role : Role) (reads : Bool) (p : Permission)
    → IsKind reads p
    → (role_allows role p ≡ true) ↔ RoleMay role reads
unfolding role_allows
role_allows-kind administrator true p k = ground arith
role_allows-kind administrator false p k = ground arith
role_allows-kind operator true p (inl e) = rw e (ground arith)
role_allows-kind operator true p (inr e) = rw e (ground arith)
role_allows-kind operator false p (inl e) = rw e (ground arith)
role_allows-kind operator false p (inr e) = rw e (ground arith)
role_allows-kind read_only true p (inl e) = rw e (ground arith)
role_allows-kind read_only true p (inr e) = rw e (ground arith)
role_allows-kind read_only false p (inl e) = rw e (ground arith)
role_allows-kind read_only false p (inr e) = rw e (ground arith)

-- An access to a bucket that is enough for an operation that reads, or for one that may write.
abbrev pub AccessMay : BucketAccess → Bool → Type 0
AccessMay access reads = (access ≡ write_access) ⊎ ((access ≡ read_access) × (reads ≡ true))

permits-kind :
    (access : BucketAccess) (reads : Bool) (p : Permission)
    → IsKind reads p
    → (permits access p ≡ true) ↔ AccessMay access reads
unfolding permits
permits-kind none_access true p (inl e) = rw e (ground arith)
permits-kind none_access true p (inr e) = rw e (ground arith)
permits-kind none_access false p (inl e) = rw e (ground arith)
permits-kind none_access false p (inr e) = rw e (ground arith)
permits-kind read_access true p (inl e) = rw e (ground arith)
permits-kind read_access true p (inr e) = rw e (ground arith)
permits-kind read_access false p (inl e) = rw e (ground arith)
permits-kind read_access false p (inr e) = rw e (ground arith)
permits-kind write_access true p (inl e) = rw e (ground arith)
permits-kind write_access true p (inr e) = rw e (ground arith)
permits-kind write_access false p (inl e) = rw e (ground arith)
permits-kind write_access false p (inr e) = rw e (ground arith)

-- What an identity may do, told by whether the operation reads and by the access to the bucket.
abbrev pub SignedMay : SignedIdentity → String → Bool → Type 0
SignedMay i bucket reads =
    (i.role ≡ administrator)
    ⊎ (((i.role ≡ operator) ⊎ (reads ≡ true))
        × ((bucket ≡ "") ⊎ AccessMay (for_bucket i.grants bucket) reads))

authorize_signed-may :
    (i : SignedIdentity) (request : S3Request) (op : Operation) (c : Context)
    → op ≢ preflight
    → ((authorize false (some i) request op c).0 ≡ ok tt)
      ↔ SignedMay i request.bucket (is_read_only op)
unfolding authorize
authorize_signed-may i request op c h =
    let p = permission_for op in
    let kind = permission_for-IsKind op h in
    ground (
      arith,
      authorize_signed-ok i request op c,
      role_allows-kind i.role (is_read_only op) p kind,
      allows-narrows i.role i.grants request.bucket p,
      permits-kind (for_bucket i.grants request.bucket) (is_read_only op) p kind,
    )

-- A signed request, other than a preflight, passes exactly when its identity was resolved and is an
-- administrator, or is an operator or asks for an operation that only reads, and in that case, where
-- a bucket is named, has write access to it, or read access and an operation that only reads.
pub authorize_signed_iff :
    (identity : Option SignedIdentity) (request : S3Request) (op : Operation) (c : Context)
    → op ≢ preflight
    → ((authorize false identity request op c).0 ≡ ok tt)
      ↔ ((i : SignedIdentity) × (identity ≡ some i) × SignedMay i request.bucket (is_read_only op))
unfolding authorize
authorize_signed_iff none request op c h =
    (λ e. absurd (grind arith), λ (i, e, m). absurd (grind arith))
authorize_signed_iff (some i) request op c h = (
  λ e. (i, refl, (authorize_signed-may i request op c h).0 e),
  λ (j, same, may).
      let p : i ≡ j = ground arith in (authorize_signed-may i request op c h).1 (rw p may),
)
