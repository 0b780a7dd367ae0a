-- ===== src/Core/Identity.antt =====
-- backend/src/core/identity.hpp and identity.cpp: roles, permissions, bucket access and usernames.
pub mod Laws
mod Tests
use mono_bucket.Base.{
  ℕ, String, Bool, true, false, ◌&&◌, ◌||◌, not, Option, none, some, List, [], ◌∷◌, ltb, leb, ◌==◌,
  if◌then◌else◌, str_eq, Dict, lookup, Bytes, length, all,
}

pub data Role : Type 0 where
  administrator operator read_only : Role

pub data Permission : Type 0 where
  bucket_read bucket_write object_read object_write settings_read settings_write : Permission
  capacity_write credential_read credential_write user_read user_write audit_read : Permission
  backup_write : Permission

pub data BucketAccess : Type 0 where
  none_access read_access write_access : BucketAccess

unfoldable pub all_permissions : List Permission
all_permissions =
    bucket_read ∷ bucket_write ∷ object_read ∷ object_write ∷ settings_read ∷ settings_write
    ∷ capacity_write ∷ credential_read ∷ credential_write ∷ user_read ∷ user_write ∷ audit_read
    ∷ backup_write ∷ []

unfoldable pub role_to_string : Role → String
role_to_string administrator = "administrator"
role_to_string operator = "operator"
role_to_string read_only = "readonly"

unfoldable pub permission_to_string : Permission → String
permission_to_string bucket_read = "bucket:read"
permission_to_string bucket_write = "bucket:write"
permission_to_string object_read = "object:read"
permission_to_string object_write = "object:write"
permission_to_string settings_read = "settings:read"
permission_to_string settings_write = "settings:write"
permission_to_string capacity_write = "capacity:write"
permission_to_string credential_read = "credential:read"
permission_to_string credential_write = "credential:write"
permission_to_string user_read = "user:read"
permission_to_string user_write = "user:write"
permission_to_string audit_read = "audit:read"
permission_to_string backup_write = "backup:write"

unfoldable pub access_to_string : BucketAccess → String
access_to_string none_access = "none"
access_to_string read_access = "read"
access_to_string write_access = "write"

unfoldable pub parse_bucket_access : String → Option BucketAccess
parse_bucket_access name =
    if str_eq name "none"
    then some none_access
    else if str_eq name "read"
    then some read_access
    else if str_eq name "write"
    then some write_access
    else none

unfoldable pub parse_role : String → Option Role
parse_role name =
    if str_eq name "administrator"
    then some administrator
    else if str_eq name "operator"
    then some operator
    else if str_eq name "readonly"
    then some read_only
    else none

unfoldable pub permits : BucketAccess → Permission → Bool
permits none_access bucket_read = false
permits _ bucket_read = true
permits none_access object_read = false
permits _ object_read = true
permits write_access bucket_write = true
permits _ bucket_write = false
permits write_access object_write = true
permits _ object_write = false
permits write_access capacity_write = true
permits _ capacity_write = false
permits _ settings_read = true
permits _ settings_write = true
permits _ credential_read = true
permits _ credential_write = true
permits _ user_read = true
permits _ user_write = true
permits _ audit_read = true
permits _ backup_write = true

pub record BucketGrants : Type 0 where
  pub fallback : BucketAccess
  pub exceptions : Dict BucketAccess

unfoldable pub access_or : BucketAccess → Option BucketAccess → BucketAccess
access_or fallback none = fallback
access_or fallback (some access) = access

unfoldable pub for_bucket : BucketGrants → String → BucketAccess
unfolding access_or
for_bucket g bucket = access_or g.fallback (lookup bucket g.exceptions)

abbrev is_write : BucketAccess → Bool
is_write write_access = true
is_write _ = false

abbrev is_empty : Dict BucketAccess → Bool
is_empty [] = true
is_empty (_ ∷ _) = false

unfoldable pub unrestricted : BucketGrants → Bool
unrestricted g = is_write g.fallback && is_empty g.exceptions

-- `allows(role, permission)`
unfoldable pub role_allows : Role → Permission → Bool
role_allows administrator _ = true
role_allows operator bucket_read = true
role_allows operator bucket_write = true
role_allows operator object_read = true
role_allows operator object_write = true
role_allows operator settings_read = true
role_allows operator credential_read = true
role_allows operator credential_write = true
role_allows operator _ = false
role_allows read_only bucket_read = true
role_allows read_only object_read = true
role_allows read_only settings_read = true
role_allows read_only credential_read = true
role_allows read_only _ = false

abbrev is_administrator : Role → Bool
is_administrator administrator = true
is_administrator _ = false

-- `allows(role, grants, bucket, permission)`
unfoldable pub allows : Role → BucketGrants → String → Permission → Bool
unfolding role_allows permits for_bucket
allows role grants bucket permission =
    if not (role_allows role permission)
    then false
    else if is_administrator role
    then true
    else permits (for_bucket grants bucket) permission

unfoldable pub granted : Role → List Permission → List Permission
unfolding role_allows
granted role [] = []
granted role (p ∷ ps) = let rest = granted role ps in if role_allows role p then p ∷ rest else rest

unfoldable pub permissions_for : Role → List Permission
unfolding granted all_permissions
permissions_for role = granted role all_permissions

-- `std::isalnum` in the C locale.
unfoldable pub is_base : ℕ → Bool
is_base ch =
    (leb b'0' ch && leb ch b'9') || ((leb b'a' ch && leb ch b'z') || (leb b'A' ch && leb ch b'Z'))

unfoldable pub is_name_byte : ℕ → Bool
unfolding is_base
is_name_byte ch = is_base ch || (ch == b'.' || (ch == b'_' || ch == b'-'))

unfoldable pub is_valid_username : Bytes → Bool
unfolding is_base is_name_byte
is_valid_username [] = false
is_valid_username (first ∷ rest) =
    if ltb 64 (length (first ∷ rest))
    then false
    else if not (is_base first)
    then false
    else all is_name_byte (first ∷ rest)
