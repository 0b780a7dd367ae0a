-- ===== src/Storage/Quota/Tests.antt =====
-- The ledger (quota.cpp) on small inputs.
use mono_bucket.Base.{
  ℕ, ◌+◌, ◌-◌, ◌^◌, String, List, [], ◌∷◌, ok, ◌≡◌, ◌<◌, ◌≤◌, inr, word64, true, lookup, insert,
  erase, arith, eq_iff, refl,
}
use mono_bucket.Storage.Quota.Capacity.{capacity}
use mono_bucket.Storage.Quota.{
  QuotaLedger, Reservation, empty_reservation, entry_for, write_entry, extend, reserve, release,
  charged_bytes, take_bytes, set_quota, allocated_locked, allocated_from, record_object,
  record_deletion, forget, track, admit_allocation, or_fresh,
}
use mono_bucket.Storage.Quota.Sums.{others_sum, quota_sum, set_quota_within}
use mono_bucket.Storage.Quota.Races.{
  admit_allocation_wraps, create_race, stale_release, deletion_first,
}
use mono_bucket.Storage.Quota.Writers.{
  System, Event, begin, put_object, delete, handle, run, pick, claimed, total, IsSound, AllAllowed,
}
use mono_bucket.Storage.Quota.Writers.Sound.{run-IsSound}

abbrev sample : QuotaLedger
sample = record {
  allocatable_bytes = 1000;
  buckets =
      (
        "alpha",
        record { quota_bytes = 500; used_bytes = 100; pending_bytes = 0; reserved_bytes = 0 },
      )
      ∷ ("beta", record { quota_bytes = 0; used_bytes = 50; pending_bytes = 0; reserved_bytes = 0 })
      ∷ [];
}

abbrev start : System
start = record { ledger = sample; claims = [] }

abbrev session : List Event
session = begin "alpha" 200 ∷ put_object 0 "alpha" 150 20 ∷ delete "beta" 10 ∷ []

session_allowed : AllAllowed session start
unfolding handle pick reserve extend entry_for or_fresh lookup charged_bytes
session_allowed = (omega arith, ((inr refl, omega arith), (tt, tt)))

start-IsSound : IsSound start
unfolding entry_for or_fresh lookup claimed
start-IsSound = record {
  armed = tt;
  fits = λ b. record {
    reserved = ground (arith, eq_iff "alpha" b, eq_iff "beta" b);
    narrow = ground (arith, eq_iff "alpha" b, eq_iff "beta" b);
    within = ground (arith, eq_iff "alpha" b, eq_iff "beta" b);
  };
}

run-IsSound_example : IsSound (run session start)
run-IsSound_example = run-IsSound session start session_allowed start-IsSound

abbrev claim_of : String → ℕ → Reservation
claim_of b n = record { held = true; bucket = b; bytes = n }

roomy : total (entry_for "alpha" sample) + 200 < word64
unfolding entry_for or_fresh lookup
roomy = omega arith

admitted : (reserve "alpha" 200 sample).0 ≡ ok (claim_of "alpha" 200)
unfolding reserve extend entry_for or_fresh lookup charged_bytes
admitted = refl

set_quota_accepted : (set_quota "alpha" 900 sample).0 ≡ ok tt
unfolding set_quota allocated_locked allocated_from entry_for or_fresh lookup charged_bytes
    write_entry insert
set_quota_accepted = refl

others_small : others_sum "alpha" sample.buckets + 900 < word64
unfolding others_sum
others_small = omega arith

set_quota_within_example : quota_sum (set_quota "alpha" 900 sample).1.buckets ≤ 1000
set_quota_within_example =
    set_quota_within "alpha" 900 sample ((refl, tt), (tt, tt)) (omega arith) (omega arith)
      others_small set_quota_accepted

abbrev half_full : QuotaLedger
half_full = record {
  allocatable_bytes = 1000;
  buckets =
      ("alpha", record { quota_bytes = 500; used_bytes = 0; pending_bytes = 0; reserved_bytes = 0 })
      ∷ [];
}

wraps_past : word64 ≤ others_sum "" half_full.buckets + (2 ^ 64 - 500)
unfolding others_sum
wraps_past = omega arith

wraps_small :
    others_sum "" half_full.buckets + (2 ^ 64 - 500) ≤ word64 + half_full.allocatable_bytes
unfolding others_sum
wraps_small = omega arith

admit_allocation_wraps_example : admit_allocation (2 ^ 64 - 500) half_full ≡ ok tt
admit_allocation_wraps_example =
    admit_allocation_wraps (2 ^ 64 - 500) half_full wraps_past wraps_small (omega arith)

create_race_example :
    (admit_allocation 300 half_full ≡ ok tt)
    × (admit_allocation 400 half_full ≡ ok tt)
    × (1000 < quota_sum (track "gamma" 400 (track "beta" 300 half_full)).buckets)
unfolding quota_sum
create_race_example =
    create_race "beta" "gamma" 300 400 half_full (tt, tt) (refl, tt) (refl, tt) (refl, tt) refl
      (omega arith) (omega arith) (omega arith) (omega arith)

remade :
    (reserve "alpha" 70 (track "alpha" 0 (forget "alpha" (reserve "alpha" 200 sample).1))).0
    ≡ ok (claim_of "alpha" 70)
unfolding reserve extend entry_for or_fresh lookup charged_bytes track forget write_entry insert
    erase
remade = refl

stale_release_example :
    (capacity "alpha"
      (release
        (claim_of "alpha" 200)
        (reserve "alpha" 70
          (track "alpha" 0 (forget "alpha" (reserve "alpha" 200 sample).1))).1).1).reserved_bytes
    ≡ take_bytes 70 200
stale_release_example =
    stale_release "alpha" 200 70 0 sample (claim_of "alpha" 200) (claim_of "alpha" 70) roomy
      (omega arith) (omega arith) (omega arith) admitted remade

little_used : (entry_for "alpha" sample).used_bytes < 150
unfolding entry_for or_fresh lookup
little_used = omega arith

used_room : (entry_for "alpha" sample).used_bytes + 150 < word64
unfolding entry_for or_fresh lookup
used_room = omega arith

deletion_first_example :
    ((capacity "alpha" (
        record_deletion "alpha" 150
          (record_object "alpha" empty_reservation 150 0 sample))).used_bytes
      ≡ (entry_for "alpha" sample).used_bytes)
    × ((capacity "alpha" (
          record_object "alpha" empty_reservation 150 0
            (record_deletion "alpha" 150 sample))).used_bytes
        ≡ 150)
deletion_first_example = deletion_first "alpha" 150 sample empty_reservation little_used used_room
