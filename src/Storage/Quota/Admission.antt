-- ===== src/Storage/Quota/Admission.antt =====
-- What each method of the ledger decides (quota.cpp: extend, reserve, release, setQuota).
use mono_bucket.Base.{
  ℕ, ◌+◌, ◌-◌, String, str_eq, if◌then◌else◌, ok, err, ◌≡◌, ◌≢◌, ◌<◌, ◌↔◌, word64, add64, true,
  arith, eq_iff, some, ◌==◌, Bool-cases, inl, inr,
}
use mono_bucket.Storage.Errors.{quota_exceeded, quota_below_usage}
use mono_bucket.Storage.Quota.Capacity.{bucket_remaining_bytes, unlimited, capacity}
use mono_bucket.Storage.Quota.{
  QuotaLedger, Reservation, entry_for, write_entry, extend, reserve, release, charged_bytes,
  take_bytes, set_quota,
}
use mono_bucket.Storage.Quota.Entries.{entry_for-write_entry, entry_for-give_back}
use mono_bucket.Storage.Quota.Writers.{total}

-- A write of `n > 0` bytes is refused for want of quota exactly when the bucket has an allocation and
-- what it answers for, `n` included, is more than that. The sum is assumed to fit 64 bits.
pub reserve_refused_iff :
    (b : String) (n : ℕ) (l : QuotaLedger)
    → total (entry_for b l) + n < word64
    → n ≢ 0
    → ((reserve b n l).0 ≡ err quota_exceeded) ↔ (
        ((entry_for b l).quota_bytes ≢ 0)
        × ((entry_for b l).quota_bytes < total (entry_for b l) + n))
unfolding reserve extend charged_bytes
reserve_refused_iff b n l room some_bytes = ground arith

-- A write of `n > 0` bytes is refused for want of quota exactly when the bucket reports that fewer than
-- `n` bytes remain. The sum of the bucket with `n` is assumed to fit 64 bits.
pub reserve_refused-remaining_iff :
    (b : String) (n : ℕ) (l : QuotaLedger)
    → total (entry_for b l) + n < word64
    → n ≢ 0
    → ((reserve b n l).0 ≡ err quota_exceeded)
      ↔ ((left : ℕ) × (bucket_remaining_bytes (capacity b l) ≡ some left) × (left < n))
unfolding reserve extend charged_bytes bucket_remaining_bytes unlimited capacity take_bytes
reserve_refused-remaining_iff b n l room some_bytes =
    elim (Bool-cases ((entry_for b l).quota_bytes == 0)) [
      | inl free ↦ ((λ h. ground arith), (λ (left, e, h). ground arith))
      | inr limited ↦ (
        (λ h. (
          take_bytes (entry_for b l).quota_bytes (charged_bytes (entry_for b l)),
          ground arith,
          ground arith,
        )),
        (λ (left, e, h). ground arith),
      )
    ]

-- An admitted write of `n` bytes adds `n` to the reserved bytes of its own bucket and changes no
-- other bucket. The sum of the bucket with `n` is assumed to fit 64 bits.
pub reserve_charges :
    (b j : String) (n : ℕ) (l : QuotaLedger) (r : Reservation)
    → total (entry_for b l) + n < word64
    → (reserve b n l).0 ≡ ok r
    → entry_for j (reserve b n l).1 ≡ (
        if str_eq b j
        then record (entry_for b l) { reserved_bytes = (entry_for b l).reserved_bytes + n }
        else entry_for j l)
unfolding reserve extend charged_bytes
reserve_charges b j n l r room admitted = ground (
  arith,
  eq_iff b j,
  entry_for-write_entry b j
      (record (entry_for b l) { reserved_bytes = add64 (entry_for b l).reserved_bytes (n - 0) }) l,
)

pub reserve_held :
    (b : String) (n : ℕ) (l : QuotaLedger) (r : Reservation)
    → n ≢ 0
    → (reserve b n l).0 ≡ ok r
    → (r.held ≡ true) × (r.bucket ≡ b) × (r.bytes ≡ n)
unfolding reserve extend
reserve_held b n l r some_bytes e = ground arith

-- A claim of `n > 0` bytes that is admitted and released, with nothing between, leaves the capacity of
-- every bucket as it was. The sum of the bucket with `n` is assumed to fit 64 bits.
pub release-reserve :
    (b j : String) (n : ℕ) (l : QuotaLedger) (r : Reservation)
    → total (entry_for b l) + n < word64
    → n ≢ 0
    → (reserve b n l).0 ≡ ok r
    → capacity j (release r (reserve b n l).1).1 ≡ capacity j l
unfolding release take_bytes capacity
release-reserve b j n l r room some_bytes admitted =
    let held = reserve_held b n l r some_bytes admitted in
    ground (
      arith,
      eq_iff b j,
      held,
      entry_for-give_back r.bucket j r.bytes (reserve b n l).1,
      reserve_charges b j n l r room admitted,
    )

-- An allocation is refused as below the usage exactly when it is a limit and less than what the
-- bucket answers for. That sum is assumed to fit 64 bits.
pub set_quota_below_iff :
    (b : String) (q : ℕ) (l : QuotaLedger)
    → total (entry_for b l) < word64
    → ((set_quota b q l).0 ≡ err quota_below_usage) ↔ ((q ≢ 0) × (q < total (entry_for b l)))
unfolding set_quota charged_bytes
set_quota_below_iff b q l room = ground arith

-- An accepted allocation sets the allocation of its bucket and changes nothing else in any bucket.
pub set_quota_sets :
    (b j : String) (q : ℕ) (l : QuotaLedger)
    → (set_quota b q l).0 ≡ ok tt
    → entry_for j (set_quota b q l).1
      ≡ (if str_eq b j then record (entry_for b l) { quota_bytes = q } else entry_for j l)
unfolding set_quota
set_quota_sets b j q l accepted = ground (
  arith,
  eq_iff b j,
  entry_for-write_entry b j (entry_for b l) l,
  entry_for-write_entry b j (record (entry_for b l) { quota_bytes = q })
      (write_entry b (entry_for b l) l),
)
