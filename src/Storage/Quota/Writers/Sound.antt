-- ===== src/Storage/Quota/Writers/Sound.antt =====
-- Runs of the writers' events, and the allocations of the buckets (quota.cpp).
use mono_bucket.Base.{
  ℕ, zero, suc, ◌+◌, String, some, List, [], ◌∷◌, Result, ok, err, ◌≡◌, ◌<◌, inl, inr, word64, All,
  arith, Option-cases, refl,
}
use mono_bucket.Storage.Errors.{StorageErrorCode}
use mono_bucket.Storage.Quota.{
  Entry, QuotaLedger, Reservation, empty_reservation, entry_for, extend, reserve,
}
use mono_bucket.Storage.Quota.Writers.{
  System, Event, begin, grow, abandon, put_object, put_part, delete, abort, complete, allocate,
  create, drop_bucket, pick, begun, grown, handle, run, share, claimed, total, Fits, IsArmed,
  IsSound, ClaimOn, IsAllowed, AllAllowed,
}
use mono_bucket.Storage.Quota.Writers.Steps.{
  pick-share, extend_ok, extend_err, release-Fits, record_object-Fits, record_part-Fits,
  record_deletion-Fits, record_upload_aborted-Fits, record_upload_completed-Fits, set_quota-Fits,
  track-Fits, forget-Fits,
}

pick-IsArmed :
    (i : ℕ) (rs : List Reservation) (r : Reservation) (qs : List Reservation)
    → pick i rs ≡ some (r, qs)
    → All IsArmed rs
    → IsArmed r × All IsArmed qs
unfolding pick
pick-IsArmed zero [] r qs e h = ground arith
pick-IsArmed (suc i) [] r qs e h = ground arith
pick-IsArmed zero (q ∷ rs) r qs e h = ground arith
pick-IsArmed (suc i) (q ∷ rs) r qs e h = elim (Option-cases (pick i rs)) [
  | inl missing ↦ ground arith
  | inr ((p, ps), found) ↦
      let (first, others) = pick-IsArmed i rs p ps found h.1 in
      let same : p ≡ r = ground arith in
      let split : qs ≡ q ∷ ps = ground arith in rw split (rw (← same) (first, (h.0, others)))
]

extend-IsArmed :
    (r : Reservation) (b : String) (n : ℕ) (l : QuotaLedger) (r' : Reservation) (l' : QuotaLedger)
    → IsArmed r
    → extend r b n l ≡ (ok r', l')
    → IsArmed r'
unfolding extend
extend-IsArmed r b n l r' l' h e = ground arith

share_empty : (b : String) → share b empty_reservation ≡ 0
share_empty b = ground arith

Fits-eq : (e : Entry) (m n : ℕ) → m ≡ n → Fits e m → Fits e n
Fits-eq e m n p h = ground arith

module _ (s : System) (sound : IsSound s) where
  -- Every bucket with one more claim that holds nothing.
  with_empty :
      (j : String) → Fits (entry_for j s.ledger) (share j empty_reservation + claimed j s.claims)
  with_empty j = Fits-eq _ (claimed j s.claims) _ (omega (arith, share_empty j)) (sound.fits j)

  begin-IsSound :
      (b : String) (n : ℕ) (o : Result StorageErrorCode Reservation × QuotaLedger)
      → total (entry_for b s.ledger) + n < word64
      → extend empty_reservation b n s.ledger ≡ o
      → IsSound (begun o s.claims)
  unfolding claimed
  begin-IsSound b n (ok r, l) room e = record {
    armed = (extend-IsArmed empty_reservation b n s.ledger r l (inr refl) e, sound.armed);
    fits = λ j.
        extend_ok empty_reservation b n s.ledger (inr refl) room j (claimed j s.claims) r l
          (with_empty j) e;
  }
  begin-IsSound b n (err c, l) room e = record {
    armed = sound.armed;
    fits = λ j.
        Fits-eq _ _ _ (omega (arith, share_empty j))
          (extend_err empty_reservation b j n s.ledger (claimed j s.claims) c l (with_empty j) e);
  }

  module _ (i : ℕ) (r : Reservation) (rs : List Reservation)
      (picked : pick i s.claims ≡ some (r, rs)) where
    split-Fits : (j : String) → Fits (entry_for j s.ledger) (share j r + claimed j rs)
    split-Fits j = Fits-eq _ _ _ (pick-share j i s.claims r rs picked) (sound.fits j)

    split-IsArmed : IsArmed r × All IsArmed rs
    split-IsArmed = pick-IsArmed i s.claims r rs picked sound.armed

    grow-IsSound :
        (b : String) (n : ℕ) (o : Result StorageErrorCode Reservation × QuotaLedger)
        → total (entry_for b s.ledger) + n < word64
        → extend r b n s.ledger ≡ o
        → IsSound (grown r o rs)
    unfolding claimed
    grow-IsSound b n (ok r', l) room e = record {
      armed = (extend-IsArmed r b n s.ledger r' l split-IsArmed.0 e, split-IsArmed.1);
      fits =
          λ j. extend_ok r b n s.ledger split-IsArmed.0 room j (claimed j rs) r' l (split-Fits j) e;
    }
    grow-IsSound b n (err c, l) room e = record {
      armed = split-IsArmed;
      fits = λ j. extend_err r b j n s.ledger (claimed j rs) c l (split-Fits j) e;
    }

-- Each call of the ledger, made as the engine makes it, keeps the ledger sound.
pub handle-IsSound : (ev : Event) (s : System) → IsAllowed ev s → IsSound s → IsSound (handle ev s)
unfolding handle reserve
handle-IsSound (begin b n) s h sound =
    begin-IsSound s sound b n (extend empty_reservation b n s.ledger) h refl
handle-IsSound (grow i b n) s h sound = elim (Option-cases (pick i s.claims)) [
  | inl none_there ↦ rw none_there sound
  | inr ((r, rs), picked) ↦
      rw picked (grow-IsSound s sound i r rs picked b n (extend r b n s.ledger) h refl)
]
handle-IsSound (abandon i) s h sound = elim (Option-cases (pick i s.claims)) [
  | inl none_there ↦ rw none_there sound
  | inr ((r, rs), picked) ↦ rw picked (record {
    armed = (split-IsArmed s sound i r rs picked).1;
    fits = λ j.
        release-Fits r j s.ledger (claimed j rs) (split-IsArmed s sound i r rs picked).0
          (split-Fits s sound i r rs picked j);
  })
]
handle-IsSound (put_object i b stored replaced) s h sound = elim (Option-cases (pick i s.claims)) [
  | inl none_there ↦ rw none_there sound
  | inr ((r, rs), picked) ↦
      let k : ClaimOn b stored (some (r, rs)) = rw picked at h in
      rw picked (record {
        armed = (split-IsArmed s sound i r rs picked).1;
        fits = λ j.
            record_object-Fits r b j stored replaced s.ledger (claimed j rs)
              (split-IsArmed s sound i r rs picked).0 k.0 k.1 (split-Fits s sound i r rs picked j);
      })
]
handle-IsSound (put_part i b stored replaced) s h sound = elim (Option-cases (pick i s.claims)) [
  | inl none_there ↦ rw none_there sound
  | inr ((r, rs), picked) ↦
      let k : ClaimOn b stored (some (r, rs)) = rw picked at h in
      rw picked (record {
        armed = (split-IsArmed s sound i r rs picked).1;
        fits = λ j.
            record_part-Fits r b j stored replaced s.ledger (claimed j rs)
              (split-IsArmed s sound i r rs picked).0 k.0 k.1 (split-Fits s sound i r rs picked j);
      })
]
handle-IsSound (delete b n) s h sound = record {
  armed = sound.armed;
  fits = λ j. record_deletion-Fits b j s.ledger _ (sound.fits j) n;
}
handle-IsSound (abort b n) s h sound = record {
  armed = sound.armed;
  fits = λ j. record_upload_aborted-Fits b j s.ledger _ (sound.fits j) n;
}
handle-IsSound (complete b stored replaced released) s h sound = record {
  armed = sound.armed;
  fits = λ j.
      record_upload_completed-Fits b j s.ledger _ (sound.fits j) stored replaced released h.0 h.1;
}
handle-IsSound (allocate b q) s h sound = record {
  armed = sound.armed;
  fits = λ j. set_quota-Fits b j s.ledger _ (sound.fits j) q h.0 h.1;
}
handle-IsSound (create b q) s h sound = record {
  armed = sound.armed;
  fits = λ j. track-Fits b j s.ledger _ (sound.fits j) q h.0 h.1;
}
handle-IsSound (drop_bucket b) s h sound = record {
  armed = sound.armed;
  fits = λ j. forget-Fits b j s.ledger _ (sound.fits j) (λ e. rw (← e) h);
}

-- From a sound state, any sequence of allowed events ends in a sound one: the reserved bytes of each
-- bucket are the sum of the claims held on it, what a bucket with an allocation answers for is at
-- most the allocation, and a claim that is not held is of no bytes.
pub run-IsSound :
    (evs : List Event) (s : System) → AllAllowed evs s → IsSound s → IsSound (run evs s)
unfolding run
run-IsSound [] s h sound = sound
run-IsSound (ev ∷ evs) s h sound = run-IsSound evs (handle ev s) h.1 (handle-IsSound ev s h.0 sound)
