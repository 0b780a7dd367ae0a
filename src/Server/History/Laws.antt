-- ===== src/Server/History/Laws.antt =====
-- backend/src/server/metrics_history.cpp: the samples are the latest differences of the readings.
use mono_bucket.Base.{
  ℕ, ◌-◌, ◌≡◌, refl, ◌∙◌, ap, Option, none, some, List, [], ◌∷◌, ◌==◌, if◌then◌else◌, length, drop,
  arith,
}
use mono_bucket.Server.History.{
  Reading, Sample, sample_of, MetricsHistory, no_sample, new_history, record_from, record_reading,
  samples,
}
use mono_bucket.Server.History.Buffer.{push, contents, pushes, new_ring}
use mono_bucket.Server.History.Buffer.Laws.{contents-last}

unfoldable pub record_readings : List Reading → MetricsHistory → MetricsHistory
unfolding record_reading
record_readings [] h = h
record_readings (r ∷ rs) h = record_readings rs (record_reading r h)

-- The sample of each reading against the one before it.
unfoldable pub differences : Reading → List Reading → List Sample
unfolding sample_of
differences previous [] = []
differences previous (r ∷ rs) = sample_of previous r ∷ differences r rs

record_readings-pushes :
    (previous : Reading) (rs : List Reading) (h : MetricsHistory)
    → h.previous ≡ some previous
    → (record_readings rs h).ring ≡ pushes (differences previous rs) h.ring
unfolding record_readings record_reading differences pushes
record_readings-pushes previous [] h e = refl
record_readings-pushes previous (r ∷ rs) h e =
    record_readings-pushes r rs (record_reading r h) (kept h.previous)
    ∙ ap (λ x. pushes (differences r rs) x) (pushed h.previous e)
  where
    kept : (o : Option Reading) → (record_from o r h).previous ≡ some r
    kept none = refl
    kept (some p) = refl

    pushed :
        (o : Option Reading)
        → o ≡ some previous
        → (record_from o r h).ring ≡ push (sample_of previous r) h.ring
    pushed none e = absurd (grind arith)
    pushed (some p) e =
        let same : p ≡ previous = grind arith in ap (λ q. push (sample_of q r) h.ring) same

-- The places of a history: one where none were asked for.
abbrev pub places : ℕ → ℕ
places capacity = if capacity == 0 then 1 else capacity

-- Whatever the capacity, and however many readings are recorded, the first of which is the baseline: the
-- samples are the differences between one reading and the next, the oldest first, of which as many as the
-- capacity are kept, and one where that is 0, and these the latest.
pub samples-record_readings :
    (capacity : ℕ) (first : Reading) (rs : List Reading)
    → samples (record_readings (first ∷ rs) (new_history capacity))
      ≡ drop (length (differences first rs) - places capacity) (differences first rs)
unfolding samples record_readings record_reading new_history
samples-record_readings capacity first rs =
    ap contents (
      record_readings-pushes first rs
        (record { ring = new_ring no_sample (places capacity); previous = some first }) refl)
    ∙ contents-last no_sample (places capacity) (differences first rs) (ground arith)
