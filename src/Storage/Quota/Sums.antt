-- ===== src/Storage/Quota/Sums.antt =====
-- Sums of allocations over the tracked buckets (quota.cpp: allocatedLocked, instance), without
-- wrap-around, and how they follow the loops that do wrap.
use mono_bucket.Base.{
  ℕ, ◌+◌, ◌%◌, String, [], ◌∷◌, str_eq, if◌then◌else◌, ok, ◌≡◌, ◌≢◌, ◌<◌, ◌≤◌, inl, inr, word64,
  add64, false, insert, Dict, arith, eq_iff, Bool-cases, refl, subst,
}
use mono_bucket.Storage.Quota.{
  Entry, QuotaLedger, entry_for, write_entry, set_quota, allocated_locked, allocated_from,
}

-- The allocations of all tracked buckets, but for one.
unfoldable pub others_sum : String → Dict Entry → ℕ
others_sum except [] = 0
others_sum except ((name, e) ∷ d) =
    (if str_eq name except then 0 else e.quota_bytes) + others_sum except d

unfoldable pub quota_sum : Dict Entry → ℕ
quota_sum [] = 0
quota_sum ((name, e) ∷ d) = e.quota_bytes + quota_sum d

-- No bucket is tracked twice.
abbrev pub IsFresh : String → Dict Entry → Type 0
IsFresh k [] = Unit
IsFresh k ((j, e) ∷ d) = (str_eq j k ≡ false) × IsFresh k d

abbrev pub IsKeyed : Dict Entry → Type 0
IsKeyed [] = Unit
IsKeyed ((j, e) ∷ d) = IsFresh j d × IsKeyed d

-- The loop computes the sum modulo 2 ^ 64.
pub allocated_from-eq-mod :
    (t : ℕ) (except : String) (d : Dict Entry)
    → t < word64
    → allocated_from t except d ≡ (t + others_sum except d) % word64
unfolding allocated_from others_sum
allocated_from-eq-mod t except [] h = omega arith
allocated_from-eq-mod t except ((name, e) ∷ d) h = elim (Bool-cases (str_eq name except)) [
  | inl same ↦ rw same (omega (arith, allocated_from-eq-mod t except d h))
  | inr other ↦
      rw other (omega (arith, allocated_from-eq-mod (add64 t e.quota_bytes) except d (omega arith)))
]

pub others_sum_fresh : (k : String) (d : Dict Entry) → IsFresh k d → others_sum k d ≡ quota_sum d
unfolding others_sum quota_sum
others_sum_fresh k [] h = refl
others_sum_fresh k ((j, e) ∷ d) h = ground (arith, others_sum_fresh k d h.1)

IsFresh-congr : (j k : String) (d : Dict Entry) → j ≡ k → IsFresh j d → IsFresh k d
IsFresh-congr j k d p h = subst (λ x. IsFresh x d) p h

-- Writing one entry replaces its own allocation in the sum.
pub quota_sum-insert :
    (k : String) (e : Entry) (d : Dict Entry)
    → IsKeyed d
    → quota_sum (insert k e d) ≡ others_sum k d + e.quota_bytes
unfolding quota_sum others_sum insert
quota_sum-insert k e [] h = omega arith
quota_sum-insert k e ((j, v) ∷ d) (fresh, keyed) = elim (Bool-cases (str_eq j k)) [
  | inl same ↦
      rw same
        (omega (arith, others_sum_fresh k d (IsFresh-congr j k d ((eq_iff j k).0 same) fresh)))
  | inr other ↦ rw other (omega (arith, quota_sum-insert k e d keyed))
]

pub others_sum-insert :
    (k : String) (e : Entry) (d : Dict Entry) → others_sum k (insert k e d) ≡ others_sum k d
unfolding others_sum insert
others_sum-insert k e [] = ground (arith, eq_iff k k)
others_sum-insert k e ((j, v) ∷ d) = ground (arith, others_sum-insert k e d)

pub IsFresh-insert :
    (i k : String) (e : Entry) (d : Dict Entry)
    → str_eq k i ≡ false
    → IsFresh i d
    → IsFresh i (insert k e d)
unfolding insert
IsFresh-insert i k e [] h f = (h, tt)
IsFresh-insert i k e ((j, v) ∷ d) h f = elim (Bool-cases (str_eq j k)) [
  | inl same ↦ rw same f
  | inr other ↦ rw other (f.0, IsFresh-insert i k e d h f.1)
]

pub IsKeyed-insert : (k : String) (e : Entry) (d : Dict Entry) → IsKeyed d → IsKeyed (insert k e d)
unfolding insert
IsKeyed-insert k e [] h = (tt, tt)
IsKeyed-insert k e ((j, v) ∷ d) (fresh, keyed) = elim (Bool-cases (str_eq j k)) [
  | inl same ↦ rw same (fresh, keyed)
  | inr other ↦ rw other (
    IsFresh-insert j k e d (ground (arith, eq_iff j k, eq_iff k j)) fresh,
    IsKeyed-insert k e d keyed,
  )
]

-- Once a limit is accepted as the allocation of a bucket on an instance with a ceiling, where no bucket
-- is tracked twice, the allocations of all buckets together are at most the ceiling. The sum of the
-- other allocations and the new one is assumed to fit 64 bits.
pub set_quota_within :
    (b : String) (q : ℕ) (l : QuotaLedger)
    → IsKeyed l.buckets
    → l.allocatable_bytes ≢ 0
    → q ≢ 0
    → others_sum b l.buckets + q < word64
    → (set_quota b q l).0 ≡ ok tt
    → quota_sum (set_quota b q l).1.buckets ≤ l.allocatable_bytes
unfolding set_quota write_entry allocated_locked
set_quota_within b q l keyed ceiling some_bytes room accepted =
    let opened = insert b (entry_for b l) l.buckets in
    ground (
      arith,
      allocated_from-eq-mod 0 b opened (omega arith),
      others_sum-insert b (entry_for b l) l.buckets,
      quota_sum-insert b (record (entry_for b l) { quota_bytes = q }) opened
          (IsKeyed-insert b (entry_for b l) l.buckets keyed),
    )
