-- ===== src/S3/Sigv4/Compare.antt =====
-- backend/src/s3/sigv4.cpp: secureEquals is equality.
use mono_bucket.Base.{
  ℕ, ◌≡◌, refl, ◌↔◌, ap, ◌∙◌, true, [], ◌∷◌, ◌==◌, length, Bytes, arith, ==_iff, sym, subst, inl,
  inr, Bool-cases,
}
use mono_bucket.Base.Bits.{bit_xor-same, bit_xor_self, bit_or-left, zero-bit_or}
use mono_bucket.S3.Sigv4.{difference_from, secure_equals}
use Prim.Native.Nat.{bit_or, bit_xor}

-- A difference once found stays.
difference_from_zero : (d : ℕ) (a b : Bytes) → difference_from d a b ≡ 0 → d ≡ 0
unfolding difference_from
difference_from_zero d [] b h = h
difference_from_zero d (x ∷ a) [] h = h
difference_from_zero d (x ∷ a) (y ∷ b) h =
    bit_or-left d (bit_xor x y) (difference_from_zero (bit_or d (bit_xor x y)) a b h)

difference_from-same : (a b : Bytes) → length a ≡ length b → difference_from 0 a b ≡ 0 → a ≡ b
unfolding difference_from
difference_from-same [] [] e h = refl
difference_from-same [] (y ∷ b) e h = absurd (omega arith)
difference_from-same (x ∷ a) [] e h = absurd (omega arith)
difference_from-same (x ∷ a) (y ∷ b) e h =
    let z = difference_from_zero (bit_or 0 (bit_xor x y)) a b h in
    let first = bit_xor-same x y (sym (zero-bit_or (bit_xor x y)) ∙ z) in
    let later =
      difference_from-same a b (omega arith) (subst (λ d. difference_from d a b ≡ 0) z h) in
    ap (λ c. c ∷ a) first ∙ ap (λ t. y ∷ t) later

difference_from_self : (a : Bytes) → difference_from 0 a a ≡ 0
unfolding difference_from
difference_from_self [] = refl
difference_from_self (x ∷ a) =
    rw (zero-bit_or (bit_xor x x), bit_xor_self x) (difference_from_self a)

-- Whatever the bytes, the comparison that runs over all of them holds exactly of equal texts.
pub secure_equals_iff : (a b : Bytes) → (secure_equals a b ≡ true) ↔ (a ≡ b)
unfolding secure_equals
secure_equals_iff a b = (same, λ e. subst (λ t. secure_equals a t ≡ true) e (self a))
  where
    same : secure_equals a b ≡ true → a ≡ b
    same h = elim (Bool-cases (length a == length b)) [
      | inl t ↦
          difference_from-same a b ((==_iff (length a) (length b)).0 t)
            ((==_iff (difference_from 0 a b) 0).0 (ground (arith, t, h)))
      | inr t ↦ ground (arith, t, h)
    ]

    self : (a : Bytes) → secure_equals a a ≡ true
    self a = rw ((==_iff (length a) (length a)).1 refl, difference_from_self a) refl
