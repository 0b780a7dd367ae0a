-- ===== src/Storage/Quota/Races.antt =====
-- Sums and orders of calls that the ledger does not guard (quota.cpp, storage_engine.cpp: createBucket, deleteBucket,
-- finishWrite, deleteObject): sums that wrap, and calls that two threads interleave.
use mono_bucket.Base.{
  ℕ, ◌+◌, ◌-◌, String, str_eq, ok, ◌≡◌, ◌≢◌, ◌<◌, ◌≤◌, word64, add64, false, insert, arith, eq_iff,
}
use mono_bucket.Storage.Quota.Capacity.{capacity}
use mono_bucket.Storage.Quota.{
  Entry, QuotaLedger, Reservation, entry_for, write_entry, reserve, release, take_bytes,
  allocated_locked, record_object, record_deletion, forget, track, consume_locked, admit_allocation,
}
use mono_bucket.Storage.Quota.Entries.{entry_for-write_entry, entry_for-forget, entry_for-give_back}
use mono_bucket.Storage.Quota.Writers.{total}
use mono_bucket.Storage.Quota.Admission.{reserve_held, reserve_charges}
use mono_bucket.Storage.Quota.Sums.{
  others_sum, quota_sum, IsFresh, IsKeyed, allocated_from-eq-mod, quota_sum-insert,
  others_sum_fresh, IsFresh-insert, IsKeyed-insert,
}

-- The sum of the check wraps: on an instance with a ceiling below 2 ^ 64, an allocation that takes the
-- sum of all allocations to 2 ^ 64 or past it, by no more than the ceiling, is admitted.
pub admit_allocation_wraps :
    (q : ℕ) (l : QuotaLedger)
    → word64 ≤ others_sum "" l.buckets + q
    → others_sum "" l.buckets + q ≤ word64 + l.allocatable_bytes
    → l.allocatable_bytes < word64
    → admit_allocation q l ≡ ok tt
unfolding admit_allocation allocated_locked
admit_allocation_wraps q l past small ceiling =
    ground (arith, allocated_from-eq-mod 0 "" l.buckets (omega arith))

-- On an instance with a ceiling below 2 ^ 64, two new buckets of different names, each of which alone
-- fits what is unallocated and which together do not, are both admitted where both checks come before
-- both records, and once both are tracked the allocations pass the ceiling.
pub create_race :
    (b c : String) (p q : ℕ) (l : QuotaLedger)
    → IsKeyed l.buckets
    → IsFresh "" l.buckets
    → IsFresh b l.buckets
    → IsFresh c l.buckets
    → str_eq b c ≡ false
    → quota_sum l.buckets + p ≤ l.allocatable_bytes
    → quota_sum l.buckets + q ≤ l.allocatable_bytes
    → l.allocatable_bytes < quota_sum l.buckets + p + q
    → l.allocatable_bytes < word64
    → (admit_allocation p l ≡ ok tt)
      × (admit_allocation q l ≡ ok tt)
      × (l.allocatable_bytes < quota_sum (track c q (track b p l)).buckets)
unfolding admit_allocation allocated_locked track write_entry
create_race b c p q l keyed named new_b new_c distinct fits_p fits_q over ceiling = (
  admitted p fits_p,
  admitted q fits_q,
  omega (
    arith,
    others_sum_fresh b l.buckets new_b,
    quota_sum-insert b first l.buckets keyed,
    others_sum_fresh c (insert b first l.buckets)
        (IsFresh-insert c b first l.buckets distinct new_c),
    quota_sum-insert c (record (entry_for c (track b p l)) { quota_bytes = q })
        (insert b first l.buckets) (IsKeyed-insert b first l.buckets keyed),
  ),
)
  where
    first : Entry
    first = record (entry_for b l) { quota_bytes = p }

    admitted :
        (x : ℕ) → quota_sum l.buckets + x ≤ l.allocatable_bytes → admit_allocation x l ≡ ok tt
    admitted x fits = ground (
      arith,
      allocated_from-eq-mod 0 "" l.buckets (omega arith),
      others_sum_fresh "" l.buckets named,
    )

-- A write has claimed `n > 0` bytes of a bucket that is then forgotten and tracked again, and a second
-- write is admitted for `m > 0` bytes: releasing the first claim takes its `n` bytes off the `m`
-- reserved for the second. The sums are assumed to fit 64 bits.
pub stale_release :
    (b : String) (n m q : ℕ) (l : QuotaLedger) (r r' : Reservation)
    → total (entry_for b l) + n < word64
    → n ≢ 0
    → m ≢ 0
    → m < word64
    → (reserve b n l).0 ≡ ok r
    → (reserve b m (track b q (forget b (reserve b n l).1))).0 ≡ ok r'
    → (capacity b
        (release r (reserve b m (track b q (forget b (reserve b n l).1))).1).1).reserved_bytes
      ≡ take_bytes m n
unfolding release capacity track
stale_release b n m q l r r' room n_pos m_pos m_word first second =
    let opened = forget b (reserve b n l).1 in
    let remade = track b q opened in
    ground (
      arith,
      eq_iff b b,
      reserve_held b n l r n_pos first,
      entry_for-forget b b (reserve b n l).1,
      entry_for-write_entry b b (record (entry_for b opened) { quota_bytes = q }) opened,
      reserve_charges b b m remade r'
          (unfold track in
            ground (
              arith,
              eq_iff b b,
              entry_for-forget b b (reserve b n l).1,
              entry_for-write_entry b b (record (entry_for b opened) { quota_bytes = q }) opened,
            ))
          second,
      entry_for-give_back r.bucket b r.bytes (reserve b m remade).1,
    )

used-record_object :
    (b : String) (r : Reservation) (n : ℕ) (l : QuotaLedger)
    → (entry_for b l).used_bytes + n < word64
    → (entry_for b (record_object b r n 0 l)).used_bytes ≡ (entry_for b l).used_bytes + n
unfolding record_object consume_locked release take_bytes
used-record_object b r n l room = ground (
  arith,
  eq_iff b b,
  entry_for-write_entry b b (stored (consume_locked (entry_for b l) r).0) l,
  entry_for-write_entry b b (stored (entry_for b l)) l,
)
  where
    stored : Entry → Entry
    stored e = record e { used_bytes = take_bytes (add64 e.used_bytes n) 0 }

used-record_deletion :
    (b : String) (n : ℕ) (l : QuotaLedger)
    → (entry_for b (record_deletion b n l)).used_bytes ≡ (entry_for b l).used_bytes - n
unfolding record_deletion take_bytes
used-record_deletion b n l = ground (
  arith,
  eq_iff b b,
  entry_for-write_entry b b
      (record (entry_for b l) { used_bytes = take_bytes (entry_for b l).used_bytes n }) l,
)

-- An object of `n` bytes is recorded and its deletion too, in a bucket with `u < n` used bytes, `u + n`
-- fitting 64 bits: in that order the bucket is left with `u` used bytes, and in the other with `n`.
pub deletion_first :
    (b : String) (n : ℕ) (l : QuotaLedger) (r : Reservation)
    → (entry_for b l).used_bytes < n
    → (entry_for b l).used_bytes + n < word64
    → ((capacity b (record_deletion b n (record_object b r n 0 l))).used_bytes
        ≡ (entry_for b l).used_bytes)
      × ((capacity b (record_object b r n 0 (record_deletion b n l))).used_bytes ≡ n)
unfolding capacity
deletion_first b n l r little room = (
  omega
      (arith, used-record_deletion b n (record_object b r n 0 l), used-record_object b r n l room),
  omega (
    arith,
    used-record_deletion b n l,
    used-record_object b r n (record_deletion b n l) (omega (arith, used-record_deletion b n l)),
  ),
)
