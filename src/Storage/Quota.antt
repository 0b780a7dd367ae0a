-- ===== src/Storage/Quota.antt =====
-- backend/src/storage/quota.hpp and quota.cpp: the ledger of bucket allocations. A mutex guards each
-- method, so a method is one atomic step; the text of the errors is left out.
pub mod Capacity
pub mod Entries
pub mod Races
pub mod Sums
pub mod Admission
pub mod Writers
mod Tests
use mono_bucket.Base.{
  ℕ, ◌+◌, ◌-◌, String, ◌≡◌, refl, Bool, true, false, ◌&&◌, not, Option, none, some, List, [], ◌∷◌,
  ltb, leb, ◌==◌, if◌then◌else◌, add64, Dict, lookup, insert, erase, str_eq, Result, ok, err,
}
use mono_bucket.Storage.Errors.{
  StorageErrorCode, quota_exceeded, quota_below_usage, insufficient_capacity, internal,
}

-- Subtraction that cannot wrap.
unfoldable pub take_bytes : ℕ → ℕ → ℕ
take_bytes from amount = if ltb amount from then from - amount else 0

-- QuotaLedger::Entry; BucketCapacity has the same fields.
pub record Entry : Type 0 where
  pub quota_bytes : ℕ
  pub used_bytes : ℕ
  pub pending_bytes : ℕ
  pub reserved_bytes : ℕ

abbrev pub fresh_entry : Entry
fresh_entry = record { quota_bytes = 0; used_bytes = 0; pending_bytes = 0; reserved_bytes = 0 }

unfoldable pub charged_bytes : Entry → ℕ
charged_bytes e = add64 (add64 e.used_bytes e.pending_bytes) e.reserved_bytes

pub record QuotaLedger : Type 0 where
  pub allocatable_bytes : ℕ
  pub buckets : Dict Entry

-- `held` is `ledger_ != nullptr`; there is one ledger.
pub record Reservation : Type 0 where
  pub held : Bool
  pub bucket : String
  pub bytes : ℕ

abbrev pub empty_reservation : Reservation
empty_reservation = record { held = false; bucket = ""; bytes = 0 }

-- `entryFor`: the entry read, created unlimited where there is none. Every caller writes it back
-- by `write_entry`.
unfoldable pub or_fresh : Option Entry → Entry
or_fresh none = fresh_entry
or_fresh (some e) = e

unfoldable pub entry_for : String → QuotaLedger → Entry
unfolding or_fresh
entry_for bucket l = or_fresh (lookup bucket l.buckets)

unfoldable pub write_entry : String → Entry → QuotaLedger → QuotaLedger
write_entry bucket e l = record l { buckets = insert bucket e l.buckets }

-- Membership

unfoldable pub seed : String → ℕ → ℕ → ℕ → QuotaLedger → QuotaLedger
seed bucket quota used pending =
    write_entry bucket (record {
      quota_bytes = quota;
      used_bytes = used;
      pending_bytes = pending;
      reserved_bytes = 0;
    })

unfoldable pub track : String → ℕ → QuotaLedger → QuotaLedger
track bucket quota l = write_entry bucket (record (entry_for bucket l) { quota_bytes = quota }) l

unfoldable pub forget : String → QuotaLedger → QuotaLedger
forget bucket l = record l { buckets = erase bucket l.buckets }

-- Allocations

-- The loop of `allocatedLocked`: the sum wraps as `std::uint64_t` does.
unfoldable pub allocated_from : ℕ → String → Dict Entry → ℕ
allocated_from total except [] = total
allocated_from total except ((name, e) ∷ rest) =
    allocated_from (if str_eq name except then total else add64 total e.quota_bytes) except rest

unfoldable pub allocated_locked : String → QuotaLedger → ℕ
unfolding allocated_from
allocated_locked except l = allocated_from 0 except l.buckets

unfoldable pub set_quota :
    String → ℕ → QuotaLedger → Result StorageErrorCode (Unit {0}) × QuotaLedger
unfolding charged_bytes allocated_locked
set_quota bucket quota l =
    let e = entry_for bucket l in
    let opened = write_entry bucket e l in
    if not (quota == 0) && ltb quota (charged_bytes e)
    then (err quota_below_usage, opened)
    else if not (l.allocatable_bytes == 0)
        && (not (quota == 0)
            && ltb l.allocatable_bytes (add64 (allocated_locked bucket opened) quota))
    then (err insufficient_capacity, opened)
    else (ok tt, write_entry bucket (record e { quota_bytes = quota }) opened)

unfoldable pub admit_allocation : ℕ → QuotaLedger → Result StorageErrorCode (Unit {0})
unfolding allocated_locked
admit_allocation quota l =
    if l.allocatable_bytes == 0
    then ok tt
    else if quota == 0
    then ok tt
    else if ltb l.allocatable_bytes (add64 (allocated_locked "" l) quota)
    then err insufficient_capacity
    else ok tt

-- Admission

unfoldable pub extend :
    Reservation → String → ℕ → QuotaLedger → Result StorageErrorCode Reservation × QuotaLedger
unfolding charged_bytes
extend r bucket bytes l =
    if r.held && not (str_eq r.bucket bucket)
    then (err internal, l)
    else if leb bytes r.bytes
    then (ok r, l)
    else let wanted = bytes - r.bytes in
      let e = entry_for bucket l in
      if not (e.quota_bytes == 0) && ltb e.quota_bytes (add64 (charged_bytes e) wanted)
      then (err quota_exceeded, write_entry bucket e l)
      else (
        ok (record { held = true; bucket = bucket; bytes = bytes }),
        write_entry bucket (record e { reserved_bytes = add64 e.reserved_bytes wanted }) l,
      )

unfoldable pub reserve :
    String → ℕ → QuotaLedger → Result StorageErrorCode Reservation × QuotaLedger
unfolding extend
reserve bucket bytes l = extend empty_reservation bucket bytes l

unfoldable pub give_back_entry : String → ℕ → Option Entry → QuotaLedger → QuotaLedger
unfolding take_bytes
give_back_entry bucket bytes none l = l
give_back_entry bucket bytes (some e) l =
    write_entry bucket (record e { reserved_bytes = take_bytes e.reserved_bytes bytes }) l

unfoldable pub give_back : String → ℕ → QuotaLedger → QuotaLedger
unfolding give_back_entry
give_back bucket bytes l =
    if bytes == 0 then l else give_back_entry bucket bytes (lookup bucket l.buckets) l

-- Reservation::release, and the destructor.
unfoldable pub release : Reservation → QuotaLedger → Reservation × QuotaLedger
unfolding give_back
release r l =
    if r.held then (record r { held = false; bytes = 0 }, give_back r.bucket r.bytes l) else (r, l)

-- Reservation::operator=, from another reservation: the old claim is released, the other is
-- disarmed. (The name left in a moved-from string is unspecified; nothing reads it.)
unfoldable pub move_assign :
    Reservation → Reservation → QuotaLedger → Reservation × Reservation × QuotaLedger
unfolding release
move_assign r other l = (other, record other { held = false; bytes = 0 }, (release r l).1)

-- Settlement

unfoldable pub consume_locked : Entry → Reservation → Entry × Reservation
unfolding take_bytes
consume_locked e r =
    if r.held
    then (
      record e { reserved_bytes = take_bytes e.reserved_bytes r.bytes },
      record r { held = false; bytes = 0 },
    )
    else (e, r)

-- The reservation is a parameter by value: it is destroyed, released, at the end of the call.
unfoldable pub record_object : String → Reservation → ℕ → ℕ → QuotaLedger → QuotaLedger
unfolding consume_locked release
record_object bucket r stored replaced l =
    let (e, r') = consume_locked (entry_for bucket l) r in
    (release r' (
      write_entry bucket (record e { used_bytes = take_bytes (add64 e.used_bytes stored) replaced })
        l)).1

unfoldable pub record_part : String → Reservation → ℕ → ℕ → QuotaLedger → QuotaLedger
unfolding consume_locked release
record_part bucket r stored replaced l =
    let (e, r') = consume_locked (entry_for bucket l) r in
    (release r' (
      write_entry bucket
        (record e { pending_bytes = take_bytes (add64 e.pending_bytes stored) replaced }) l)).1

unfoldable pub record_deletion : String → ℕ → QuotaLedger → QuotaLedger
unfolding take_bytes
record_deletion bucket released l =
    if released == 0
    then l
    else let e = entry_for bucket l in
      write_entry bucket (record e { used_bytes = take_bytes e.used_bytes released }) l

unfoldable pub record_upload_aborted : String → ℕ → QuotaLedger → QuotaLedger
unfolding take_bytes
record_upload_aborted bucket released l =
    if released == 0
    then l
    else let e = entry_for bucket l in
      write_entry bucket (record e { pending_bytes = take_bytes e.pending_bytes released }) l

unfoldable pub record_upload_completed : String → ℕ → ℕ → ℕ → QuotaLedger → QuotaLedger
unfolding take_bytes
record_upload_completed bucket stored replaced released l =
    let e = entry_for bucket l in
    write_entry bucket
      (record e {
        pending_bytes = take_bytes e.pending_bytes released;
        used_bytes = take_bytes (add64 e.used_bytes stored) replaced;
      })
      l
