-- ===== src/Storage/Quota/Writers/Steps.antt =====
-- Single events, and the agreement of the ledger with the claims (quota.cpp).
use mono_bucket.Base.{
  ℕ, zero, add64, suc, ◌+◌, ◌-◌, String, none, some, List, [], ◌∷◌, str_eq, ok, err, ◌≡◌, ◌<◌, ◌≤◌,
  ◌⊎◌, inl, inr, word64, false, lookup, arith, eq_iff, Bool-cases, Option-cases, sym, subst,
}
use mono_bucket.Storage.Errors.{StorageErrorCode}
use mono_bucket.Storage.Quota.{
  Entry, QuotaLedger, Reservation, fresh_entry, entry_for, write_entry, extend, release, set_quota,
  track, forget, record_object, record_part, record_deletion, record_upload_aborted,
  record_upload_completed, charged_bytes, take_bytes, consume_locked,
}
use mono_bucket.Storage.Quota.Entries.{entry_for-write_entry, entry_for-forget, entry_for-give_back}
use mono_bucket.Storage.Quota.Writers.{pick, share, claimed, total, Fits, IsArmed}

-- A picked claim accounts for its share.
pub pick-share :
    (b : String) (i : ℕ) (rs : List Reservation) (r : Reservation) (qs : List Reservation)
    → pick i rs ≡ some (r, qs)
    → claimed b rs ≡ share b r + claimed b qs
unfolding pick claimed
pick-share b zero [] r qs e = ground arith
pick-share b (suc i) [] r qs e = ground arith
pick-share b zero (q ∷ rs) r qs e = ground arith
pick-share b (suc i) (q ∷ rs) r qs e = elim (Option-cases (pick i rs)) [
  | inl missing ↦ ground arith
  | inr ((p, ps), found) ↦ ground (arith, pick-share b i rs p ps found)
]

abbrev reserving : ℕ → Entry → Entry
reserving n e = record e { reserved_bytes = add64 e.reserved_bytes n }

-- extend: an admitted claim is covered, a refused one changes nothing.
module _ (r : Reservation) (b : String) (n : ℕ) (l : QuotaLedger) (armed : IsArmed r)
    (room : total (entry_for b l) + n < word64) where
  extend_same :
      (rest : ℕ) (r' : Reservation) (l' : QuotaLedger)
      → Fits (entry_for b l) (share b r + rest)
      → extend r b n l ≡ (ok r', l')
      → Fits (entry_for b l') (share b r' + rest)
  unfolding extend charged_bytes
  extend_same rest r' l' here e = ground (
    arith,
    eq_iff r.bucket b,
    eq_iff b b,
    entry_for-write_entry b b (reserving (n - r.bytes) (entry_for b l)) l,
  )

  extend_other :
      (j : String) (rest : ℕ) (r' : Reservation) (l' : QuotaLedger)
      → Fits (entry_for j l) (share j r + rest)
      → extend r b n l ≡ (ok r', l')
      → str_eq b j ≡ false
      → Fits (entry_for j l') (share j r' + rest)
  unfolding extend charged_bytes
  extend_other j rest r' l' there e other = ground (
    arith,
    eq_iff r.bucket b,
    eq_iff r.bucket j,
    entry_for-write_entry b j (reserving (n - r.bytes) (entry_for b l)) l,
  )

  pub extend_ok :
      (j : String) (rest : ℕ) (r' : Reservation) (l' : QuotaLedger)
      → Fits (entry_for j l) (share j r + rest)
      → extend r b n l ≡ (ok r', l')
      → Fits (entry_for j l') (share j r' + rest)
  extend_ok j rest r' l' there e = elim (Bool-cases (str_eq b j)) [
    | inl same ↦
        let p : b ≡ j = (eq_iff b j).0 same in
        subst (λ k. Fits (entry_for k l') (share k r' + rest)) p
          (extend_same rest r' l'
            (subst (λ k. Fits (entry_for k l) (share k r + rest)) (sym p) there) e)
    | inr other ↦ extend_other j rest r' l' there e other
  ]

pub extend_err :
    (r : Reservation) (b j : String) (n : ℕ) (l : QuotaLedger) (rest : ℕ) (c : StorageErrorCode)
    (l' : QuotaLedger)
    → Fits (entry_for j l) (share j r + rest)
    → extend r b n l ≡ (err c, l')
    → Fits (entry_for j l') (share j r + rest)
unfolding extend charged_bytes
extend_err r b j n l rest c l' there e =
    ground (arith, eq_iff b j, entry_for-write_entry b j (entry_for b l) l)

-- release: the claim goes back.
pub release-Fits :
    (r : Reservation) (j : String) (l : QuotaLedger) (rest : ℕ)
    → IsArmed r
    → Fits (entry_for j l) (share j r + rest)
    → Fits (entry_for j (release r l).1) rest
unfolding release take_bytes
release-Fits r j l rest armed there =
    ground (arith, eq_iff r.bucket j, entry_for-give_back r.bucket j r.bytes l)

abbrev with_object : ℕ → ℕ → Entry → Entry
with_object stored replaced e = record e {
  used_bytes = take_bytes (add64 e.used_bytes stored) replaced;
}

abbrev with_part : ℕ → ℕ → Entry → Entry
with_part stored replaced e = record e {
  pending_bytes = take_bytes (add64 e.pending_bytes stored) replaced;
}

abbrev completed : ℕ → ℕ → ℕ → Entry → Entry
completed stored replaced released e = record e {
  pending_bytes = take_bytes e.pending_bytes released;
  used_bytes = take_bytes (add64 e.used_bytes stored) replaced;
}

untracked : (b : String) (l : QuotaLedger) → lookup b l.buckets ≡ none → entry_for b l ≡ fresh_entry
unfolding entry_for
untracked b l h = rw h

-- Settling a write: its claim becomes stored bytes.
module _ (r : Reservation) (b j : String) (stored replaced : ℕ) (l : QuotaLedger) (rest : ℕ)
    (armed : IsArmed r) (named : (r.held ≡ false) ⊎ (r.bucket ≡ b)) (claim : stored ≤ r.bytes)
    (there : Fits (entry_for j l) (share j r + rest)) where
  pub record_object-Fits : Fits (entry_for j (record_object b r stored replaced l)) rest
  unfolding record_object consume_locked release take_bytes
  record_object-Fits = ground (
    arith,
    eq_iff r.bucket j,
    eq_iff b j,
    entry_for-write_entry b j (with_object stored replaced (entry_for b l)) l,
    entry_for-write_entry b j (with_object stored replaced (consume_locked (entry_for b l) r).0) l,
  )

  pub record_part-Fits : Fits (entry_for j (record_part b r stored replaced l)) rest
  unfolding record_part consume_locked release take_bytes
  record_part-Fits = ground (
    arith,
    eq_iff r.bucket j,
    eq_iff b j,
    entry_for-write_entry b j (with_part stored replaced (entry_for b l)) l,
    entry_for-write_entry b j (with_part stored replaced (consume_locked (entry_for b l) r).0) l,
  )

module _ (b j : String) (l : QuotaLedger) (rest : ℕ) (there : Fits (entry_for j l) rest) where
  pub record_deletion-Fits : (n : ℕ) → Fits (entry_for j (record_deletion b n l)) rest
  unfolding record_deletion take_bytes
  record_deletion-Fits n = ground (
    arith,
    eq_iff b j,
    entry_for-write_entry b j
        (record (entry_for b l) { used_bytes = take_bytes (entry_for b l).used_bytes n }) l,
  )

  pub record_upload_aborted-Fits : (n : ℕ) → Fits (entry_for j (record_upload_aborted b n l)) rest
  unfolding record_upload_aborted take_bytes
  record_upload_aborted-Fits n = ground (
    arith,
    eq_iff b j,
    entry_for-write_entry b j
        (record (entry_for b l) { pending_bytes = take_bytes (entry_for b l).pending_bytes n }) l,
  )

  pub record_upload_completed-Fits :
      (stored replaced released : ℕ)
      → stored ≤ released
      → released ≤ (entry_for b l).pending_bytes
      → Fits (entry_for j (record_upload_completed b stored replaced released l)) rest
  unfolding record_upload_completed take_bytes
  record_upload_completed-Fits stored replaced released h k = ground (
    arith,
    eq_iff b j,
    entry_for-write_entry b j (completed stored replaced released (entry_for b l)) l,
  )

  pub set_quota-Fits :
      (q : ℕ)
      → total (entry_for b l) < word64
      → q < word64
      → Fits (entry_for j (set_quota b q l).1) rest
  unfolding set_quota charged_bytes
  set_quota-Fits q h k = ground (
    arith,
    eq_iff b j,
    entry_for-write_entry b j (entry_for b l) l,
    entry_for-write_entry b j (record (entry_for b l) { quota_bytes = q })
        (write_entry b (entry_for b l) l),
  )

  pub track-Fits :
      (q : ℕ) → lookup b l.buckets ≡ none → q < word64 → Fits (entry_for j (track b q l)) rest
  unfolding track
  track-Fits q h k = ground (
    arith,
    eq_iff b j,
    untracked b l h,
    entry_for-write_entry b j (record (entry_for b l) { quota_bytes = q }) l,
  )

  pub forget-Fits : (b ≡ j → rest ≡ 0) → Fits (entry_for j (forget b l)) rest
  forget-Fits h = ground (arith, eq_iff b j, entry_for-forget b j l)
