-- ===== src/Storage/Quota/Capacity.antt =====
-- What the ledger reports of a bucket and of the instance (quota.hpp: BucketCapacity,
-- InstanceCapacity; quota.cpp: capacity, instance).
use mono_bucket.Base.{
  ℕ, String, Bool, Option, none, some, [], ◌∷◌, ◌==◌, if◌then◌else◌, add64, Dict,
}
use mono_bucket.Storage.Quota.{Entry, QuotaLedger, take_bytes, charged_bytes, entry_for}

unfoldable pub unlimited : Entry → Bool
unlimited e = e.quota_bytes == 0

unfoldable pub bucket_remaining_bytes : Entry → Option ℕ
unfolding take_bytes charged_bytes unlimited
bucket_remaining_bytes e =
    if unlimited e then none else some (take_bytes e.quota_bytes (charged_bytes e))

pub record InstanceCapacity : Type 0 where
  pub allocatable_bytes : ℕ
  pub allocated_bytes : ℕ
  pub used_bytes : ℕ
  pub unlimited_buckets : ℕ

unfoldable pub instance_remaining_bytes : InstanceCapacity → ℕ
unfolding take_bytes
instance_remaining_bytes c = take_bytes c.allocatable_bytes c.allocated_bytes

-- `capacity`: an untracked bucket reads as all zeros.
unfoldable pub capacity : String → QuotaLedger → Entry
capacity bucket l = entry_for bucket l

unfoldable pub instance_from : InstanceCapacity → Dict Entry → InstanceCapacity
instance_from c [] = c
instance_from c ((name, e) ∷ rest) =
    instance_from
      (record c {
        allocated_bytes = add64 c.allocated_bytes e.quota_bytes;
        used_bytes = add64 c.used_bytes e.used_bytes;
        unlimited_buckets =
            if e.quota_bytes == 0 then add64 c.unlimited_buckets 1 else c.unlimited_buckets;
      })
      rest

unfoldable pub instance_capacity : QuotaLedger → InstanceCapacity
unfolding instance_from
instance_capacity l =
    instance_from
      (record {
        allocatable_bytes = l.allocatable_bytes;
        allocated_bytes = 0;
        used_bytes = 0;
        unlimited_buckets = 0;
      })
      l.buckets
