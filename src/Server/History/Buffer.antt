-- ===== src/Server/History/Buffer.antt =====
-- backend/src/server/metrics_history.cpp: the ring that holds the samples.
pub mod Laws
use mono_bucket.Base.{
  ℕ, zero, suc, ◌+◌, ◌%◌, Bool, true, false, ◌||◌, List, [], ◌∷◌, ◌++◌, ◌==◌, if◌then◌else◌, length,
  take, drop,
}

-- `ring_`, `next_` and `wrapped_`
pub record Ring {ℓ} (A : Type ℓ) : Type ℓ where
  pub ring : List A
  pub next : ℕ
  pub wrapped : Bool

module _ {ℓ} {A : Type ℓ} where
  unfoldable pub copies : A → ℕ → List A
  copies x zero = []
  copies x (suc n) = x ∷ copies x n

  unfoldable pub new_ring : A → ℕ → Ring A
  unfolding copies
  new_ring x capacity = record { ring = copies x capacity; next = 0; wrapped = false }

  -- ring_[n] = x
  unfoldable pub set_at : ℕ → A → List A → List A
  set_at n x [] = []
  set_at zero x (y ∷ ring) = x ∷ ring
  set_at (suc n) x (y ∷ ring) = y ∷ set_at n x ring

  unfoldable pub push : A → Ring A → Ring A
  unfolding set_at
  push x r =
      let next = (r.next + 1) % length r.ring in
      record { ring = set_at r.next x r.ring; next = next; wrapped = next == 0 || r.wrapped }

  unfoldable pub contents : Ring A → List A
  contents r = if r.wrapped then drop r.next r.ring ++ take r.next r.ring else take r.next r.ring

  unfoldable pub pushes : List A → Ring A → Ring A
  unfolding push
  pushes [] r = r
  pushes (x ∷ xs) r = pushes xs (push x r)
