-- ===== src/Storage/Quota/Writers.antt =====
-- The ledger with its writers (quota.cpp, and the calls of it in storage_engine.cpp): a sequence of
-- events is an interleaving of writes, deletions and changes of allocations, each event one call
-- of the ledger, with the reservations of the writes in flight beside the ledger.
pub mod Steps
pub mod Sound
use mono_bucket.Base.{
  ℕ, zero, suc, ◌+◌, String, Option, none, some, List, [], ◌∷◌, str_eq, if◌then◌else◌, Result, ok,
  err, ◌≡◌, ◌<◌, ◌≤◌, ◌⊎◌, word64, All, Bool, true, false, lookup,
}
use mono_bucket.Storage.Errors.{StorageErrorCode}
use mono_bucket.Storage.Quota.{
  Entry, QuotaLedger, Reservation, entry_for, extend, reserve, release, set_quota, track, forget,
  record_object, record_part, record_deletion, record_upload_aborted, record_upload_completed,
}

pub record System : Type 0 where
  pub ledger : QuotaLedger
  pub claims : List Reservation

-- An event on a claim names it by its place in `claims`.
pub data Event : Type 0 where
  begin : String → ℕ → Event
  grow : ℕ → String → ℕ → Event
  abandon : ℕ → Event
  put_object put_part : ℕ → String → ℕ → ℕ → Event
  delete abort : String → ℕ → Event
  complete : String → ℕ → ℕ → ℕ → Event
  allocate create : String → ℕ → Event
  drop_bucket : String → Event

-- The claim at a place, and the others.
unfoldable pub pick : ℕ → List Reservation → Option (Reservation × List Reservation)
pick i [] = none
pick zero (r ∷ rs) = some (r, rs)
pick (suc i) (r ∷ rs) = elim (pick i rs) [ none ↦ none | some (q, qs) ↦ some (q, r ∷ qs) ]

-- A refused claim is not held by anybody.
abbrev pub begun : Result StorageErrorCode Reservation × QuotaLedger → List Reservation → System
begun (ok r, l) rs = record { ledger = l; claims = r ∷ rs }
begun (err e, l) rs = record { ledger = l; claims = rs }

-- A refused extension leaves the claim as it was.
abbrev pub grown :
    Reservation → Result StorageErrorCode Reservation × QuotaLedger → List Reservation → System
grown r (ok r', l) rs = record { ledger = l; claims = r' ∷ rs }
grown r (err e, l) rs = record { ledger = l; claims = r ∷ rs }

abbrev pub on_claim :
    System
    → Option (Reservation × List Reservation)
    → (Reservation → List Reservation → System)
    → System
on_claim s none f = s
on_claim s (some (r, rs)) f = f r rs

unfoldable pub handle : Event → System → System
handle (begin b n) s = begun (reserve b n s.ledger) s.claims
handle (grow i b n) s = on_claim s (pick i s.claims) λ r rs. grown r (extend r b n s.ledger) rs
handle (abandon i) s =
    on_claim s (pick i s.claims) λ r rs. record { ledger = (release r s.ledger).1; claims = rs }
handle (put_object i b stored replaced) s =
    on_claim s (pick i s.claims)
      λ r rs. record { ledger = record_object b r stored replaced s.ledger; claims = rs }
handle (put_part i b stored replaced) s =
    on_claim s (pick i s.claims)
      λ r rs. record { ledger = record_part b r stored replaced s.ledger; claims = rs }
handle (delete b n) s = record s { ledger = record_deletion b n s.ledger }
handle (abort b n) s = record s { ledger = record_upload_aborted b n s.ledger }
handle (complete b stored replaced released) s = record s {
  ledger = record_upload_completed b stored replaced released s.ledger;
}
handle (allocate b q) s = record s { ledger = (set_quota b q s.ledger).1 }
handle (create b q) s = record s { ledger = track b q s.ledger }
handle (drop_bucket b) s = record s { ledger = forget b s.ledger }

unfoldable pub run : List Event → System → System
run [] s = s
run (ev ∷ evs) s = run evs (handle ev s)

-- What one claim holds of a bucket, and what all claims hold of it.
abbrev pub share : String → Reservation → ℕ
share b r = if str_eq r.bucket b then r.bytes else 0

unfoldable pub claimed : String → List Reservation → ℕ
claimed b [] = 0
claimed b (r ∷ rs) = share b r + claimed b rs

-- The bytes a bucket answers for, as a sum that does not wrap.
abbrev pub total : Entry → ℕ
total e = e.used_bytes + e.pending_bytes + e.reserved_bytes

-- An entry agrees with the claims held of its bucket, and stays in its allocation.
pub record Fits (e : Entry) (claims : ℕ) : Type 0 where
  pub reserved : e.reserved_bytes ≡ claims
  pub narrow : e.quota_bytes < word64
  pub within : (e.quota_bytes ≡ 0) ⊎ (total e ≤ e.quota_bytes)

-- A claim that was consumed or never made holds nothing.
abbrev pub IsArmed : Reservation → Type 0
IsArmed r = (r.held ≡ true) ⊎ (r.bytes ≡ 0)

pub record IsSound (s : System) : Type 0 where
  pub armed : All IsArmed s.claims
  pub fits : (b : String) → Fits (entry_for b s.ledger) (claimed b s.claims)

-- The write on claim `r` names the bucket it was made for.
abbrev pub ClaimOn : String → ℕ → Option (Reservation × List Reservation) → Type 0
ClaimOn b stored none = Unit
ClaimOn b stored (some (r, rs)) = ((r.held ≡ false) ⊎ (r.bucket ≡ b)) × (stored ≤ r.bytes)

-- What the engine sees to before it makes each call: counters stay below 2 ^ 64, a write stores at
-- most what it claimed, an upload becomes an object of at most its released parts, a bucket is
-- created once and dropped when no write to it is in flight.
abbrev pub IsAllowed : Event → System → Type 0
IsAllowed (begin b n) s = total (entry_for b s.ledger) + n < word64
IsAllowed (grow i b n) s = total (entry_for b s.ledger) + n < word64
IsAllowed (abandon i) s = Unit
IsAllowed (put_object i b stored replaced) s = ClaimOn b stored (pick i s.claims)
IsAllowed (put_part i b stored replaced) s = ClaimOn b stored (pick i s.claims)
IsAllowed (delete b n) s = Unit
IsAllowed (abort b n) s = Unit
IsAllowed (complete b stored replaced released) s =
    (stored ≤ released) × (released ≤ (entry_for b s.ledger).pending_bytes)
IsAllowed (allocate b q) s = (total (entry_for b s.ledger) < word64) × (q < word64)
IsAllowed (create b q) s = (lookup b s.ledger.buckets ≡ none) × (q < word64)
IsAllowed (drop_bucket b) s = claimed b s.claims ≡ 0

abbrev pub AllAllowed : List Event → System → Type 0
AllAllowed [] s = Unit
AllAllowed (ev ∷ evs) s = IsAllowed ev s × AllAllowed evs (handle ev s)
