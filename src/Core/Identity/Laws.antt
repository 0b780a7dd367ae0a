-- ===== src/Core/Identity/Laws.antt =====
-- The authorisation matrix, in a bucket and between roles (identity.cpp).
use mono_bucket.Base.{
  ℕ, ◌≤◌, String, ◌≡◌, ◌↔◌, ◌⊎◌, inl, inr, refl, ap, true, some, [], ◌∷◌, arith, eq_iff, str_eq,
  lookup, insert, lookup-insert, all, length, Bytes, if◌then◌else◌,
}
use mono_bucket.Core.Identity.{
  Role, administrator, operator, read_only, Permission, BucketAccess, none_access, read_access,
  write_access, BucketGrants, for_bucket, allows, role_allows, permits, parse_role, role_to_string,
  parse_bucket_access, access_to_string, is_valid_username, is_name_byte, is_base,
}

-- Bucket access narrows a role and never widens it: what is allowed in a bucket is allowed by the
-- role alone, and by the access to that bucket unless the role is administrator.
pub allows-narrows :
    (role : Role) (g : BucketGrants) (bucket : String) (p : Permission)
    → (allows role g bucket p ≡ true) ↔ (
        (role_allows role p ≡ true)
        × ((role ≡ administrator) ⊎ (permits (for_bucket g bucket) p ≡ true)))
unfolding allows
allows-narrows administrator g bucket p = ground arith
allows-narrows operator g bucket p = ground arith
allows-narrows read_only g bucket p = ground arith

-- Less authority, in each of the two orders of the header.
abbrev pub access_rank : BucketAccess → ℕ
access_rank none_access = 0
access_rank read_access = 1
access_rank write_access = 2

abbrev pub role_rank : Role → ℕ
role_rank administrator = 2
role_rank operator = 1
role_rank read_only = 0

permits_mono :
    (a b : BucketAccess) (p : Permission)
    → access_rank a ≤ access_rank b
    → permits a p ≡ true
    → permits b p ≡ true
unfolding permits
permits_mono none_access b p h k = ground arith
permits_mono read_access b p h k = ground arith
permits_mono write_access b p h k = ground arith

role_allows_mono :
    (r s : Role) (p : Permission)
    → role_rank r ≤ role_rank s
    → role_allows r p ≡ true
    → role_allows s p ≡ true
unfolding role_allows
role_allows_mono administrator s p h k = ground arith
role_allows_mono operator s p h k = ground arith
role_allows_mono read_only s p h k = ground arith

rank_clash : (r : Role) → r ≡ administrator → role_rank r ≤ 1 → ⊥
rank_clash r p h = let two : role_rank r ≡ 2 = ap role_rank p in omega arith

-- A role and an access to the bucket that are at least as high allow whatever the lower ones allow.
pub allows_mono :
    (r s : Role) (g k : BucketGrants) (bucket : String) (p : Permission)
    → role_rank r ≤ role_rank s
    → access_rank (for_bucket g bucket) ≤ access_rank (for_bucket k bucket)
    → allows r g bucket p ≡ true
    → allows s k bucket p ≡ true
allows_mono r s g k bucket p h i a =
    let was = (allows-narrows r g bucket p).0 a in
    let kept = role_allows_mono r s p h was.0 in
    (allows-narrows s k bucket p).1 (kept, widened r s h was.1)
  where
    widened :
        (r s : Role)
        → role_rank r ≤ role_rank s
        → (r ≡ administrator) ⊎ (permits (for_bucket g bucket) p ≡ true)
        → (s ≡ administrator) ⊎ (permits (for_bucket k bucket) p ≡ true)
    widened r administrator h w = inl refl
    widened r operator h (inr w) = inr (permits_mono _ _ p i w)
    widened r read_only h (inr w) = inr (permits_mono _ _ p i w)
    widened r operator h (inl w) = absurd (rank_clash r w h)
    widened r read_only h (inl w) = absurd (rank_clash r w (omega arith))

-- An exception for one bucket changes the answer in that bucket alone.
pub exception_is_local :
    (role : Role) (g : BucketGrants) (b c : String) (access : BucketAccess) (p : Permission)
    → allows role (record g { exceptions = insert b access g.exceptions }) c p ≡ (
        if str_eq b c
        then allows role (record { fallback = access; exceptions = [] }) c p
        else allows role g c p)
unfolding allows lookup
exception_is_local role g b c access p = ground (arith, lookup-insert b c access g.exceptions)

parse_role_from : (name : String) (r : Role) → parse_role name ≡ some r → name ≡ role_to_string r
unfolding parse_role role_to_string
parse_role_from name r h =
    ground (arith, eq_iff name "administrator", eq_iff name "operator", eq_iff name "readonly")

parse_role-role_to_string : (r : Role) → parse_role (role_to_string r) ≡ some r
unfolding parse_role role_to_string
parse_role-role_to_string administrator = refl
parse_role-role_to_string operator = refl
parse_role-role_to_string read_only = refl

-- A role's name reads back as the role, and no other name reads as one.
pub parse_role_iff :
    (name : String) (r : Role) → (parse_role name ≡ some r) ↔ (name ≡ role_to_string r)
parse_role_iff name r = (parse_role_from name r, (λ e. rw e (parse_role-role_to_string r)))

parse_bucket_access_from :
    (name : String) (a : BucketAccess)
    → parse_bucket_access name ≡ some a
    → name ≡ access_to_string a
unfolding parse_bucket_access access_to_string
parse_bucket_access_from name a h =
    ground (arith, eq_iff name "none", eq_iff name "read", eq_iff name "write")

parse_bucket_access-access_to_string :
    (a : BucketAccess) → parse_bucket_access (access_to_string a) ≡ some a
unfolding parse_bucket_access access_to_string
parse_bucket_access-access_to_string none_access = refl
parse_bucket_access-access_to_string read_access = refl
parse_bucket_access-access_to_string write_access = refl

-- An access's name reads back as the access, and no other name reads as one.
pub parse_bucket_access_iff :
    (name : String) (a : BucketAccess)
    → (parse_bucket_access name ≡ some a) ↔ (name ≡ access_to_string a)
parse_bucket_access_iff name a =
    (parse_bucket_access_from name a, (λ e. rw e (parse_bucket_access-access_to_string a)))

-- A valid username has 1 to 64 bytes, each a letter, a digit or one of `. _ -`, and starts with a
-- letter or a digit.
pub is_valid_username_iff :
    (first : ℕ) (rest : Bytes)
    → (is_valid_username (first ∷ rest) ≡ true)
      ↔ ((length (first ∷ rest) ≤ 64) × (is_base first ≡ true) × (all is_name_byte rest ≡ true))
unfolding is_valid_username
is_valid_username_iff first rest = ground arith
