-- ===== src/Core/Identity/Tests.antt =====
-- The authorisation matrix (identity.cpp) on small inputs.
use mono_bucket.Base.{◌≡◌, true, [], ◌∷◌, arith, lookup, refl, ◌≤◌}
use mono_bucket.Core.Identity.{
  read_only, object_read, none_access, read_access, write_access, BucketGrants, for_bucket, allows,
  role_allows, permits, access_or,
}
use mono_bucket.Core.Identity.Laws.{access_rank}

abbrev only_photos : BucketGrants
only_photos = record { fallback = none_access; exceptions = ("photos", read_access) ∷ [] }

abbrev all_write : BucketGrants
all_write = record { fallback = write_access; exceptions = [] }

less_access :
    access_rank (for_bucket only_photos "photos") ≤ access_rank (for_bucket all_write "photos")
unfolding for_bucket lookup access_or
less_access = omega arith

may_read : allows read_only only_photos "photos" object_read ≡ true
unfolding allows for_bucket lookup role_allows permits access_or
may_read = refl
