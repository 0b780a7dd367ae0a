-- ===== src/Storage/Quota/Entries.antt =====
-- Reading an entry back after each method of the ledger (quota.cpp).
use mono_bucket.Base.{
  ℕ, String, ◌≡◌, refl, Option, none, some, arith, if◌then◌else◌, lookup, lookup-insert,
  lookup-erase, str_eq, eq_iff,
}
use mono_bucket.Storage.Quota.{
  Entry, fresh_entry, QuotaLedger, entry_for, write_entry, give_back, forget, give_back_entry,
  take_bytes,
}

pub entry_for-write_entry :
    (k j : String) (e : Entry) (l : QuotaLedger)
    → entry_for j (write_entry k e l) ≡ (if str_eq k j then e else entry_for j l)
unfolding entry_for write_entry
entry_for-write_entry k j e l = ground (arith, lookup-insert k j e l.buckets)

pub entry_for-forget :
    (k j : String) (l : QuotaLedger)
    → entry_for j (forget k l) ≡ (if str_eq k j then fresh_entry else entry_for j l)
unfolding entry_for forget
entry_for-forget k j l = ground (arith, lookup-erase k j l.buckets)

take_zero : (n : ℕ) → take_bytes 0 n ≡ 0
unfolding take_bytes
take_zero n = ground arith

take_all : (n : ℕ) → take_bytes n 0 ≡ n
unfolding take_bytes
take_all n = ground arith

-- The entry without `n` of its reserved bytes.
abbrev pub without_reserved : ℕ → Entry → Entry
without_reserved n e = record e { reserved_bytes = take_bytes e.reserved_bytes n }

module _ (k j : String) (n : ℕ) (l : QuotaLedger) where
  entry_for-give_back_entry :
      (o : Option Entry)
      → lookup k l.buckets ≡ o
      → entry_for j (give_back_entry k n o l)
        ≡ (if str_eq k j then without_reserved n (entry_for j l) else entry_for j l)
  unfolding give_back_entry entry_for
  entry_for-give_back_entry none found = ground (arith, eq_iff k j, take_zero n)
  entry_for-give_back_entry (some e) found =
      ground (arith, eq_iff k j, entry_for-write_entry k j (without_reserved n e) l)

  pub entry_for-give_back :
      entry_for j (give_back k n l)
      ≡ (if str_eq k j then without_reserved n (entry_for j l) else entry_for j l)
  unfolding give_back
  entry_for-give_back = ground (
    arith,
    eq_iff k j,
    entry_for-give_back_entry (lookup k l.buckets) refl,
    take_all (entry_for j l).reserved_bytes,
  )
