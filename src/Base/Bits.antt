-- ===== src/Base/Bits.antt =====
-- When an exclusive or, and an or, of binary digits is zero.
use Prim.Native.Nat.{
  ℕ, zero, suc, ◌+◌, ◌*◌, ◌/◌, ◌%◌, ◌≤◌, ◌<◌, max, bit_or, bit_xor, digits, differ, bit_or-bitwise,
  bit_xor-bitwise,
}
use mathlib.Core.Path.{◌≡◌, refl, sym}
use native.Mathlib.Omega.{arith}

-- More digits to go than the numbers have change nothing.
module _ (f : ℕ → ℕ → ℕ) (f0 : (b : ℕ) → b < 2 → f 0 b ≡ b) where
  abbrev run : ℕ → ℕ → ℕ → ℕ
  run n a b = digits (λ b. b) f n a b

  run_fuel : (n m a b : ℕ) → a ≤ n → a ≤ m → run n a b ≡ run m a b
  run_fuel zero zero a b p q = refl
  run_fuel zero (suc m) zero b p q = refl
  run_fuel zero (suc m) (suc a) b p q = absurd (omega arith)
  run_fuel (suc n) zero zero b p q = refl
  run_fuel (suc n) zero (suc a) b p q = absurd (omega arith)
  run_fuel (suc n) (suc m) zero b p q = refl
  run_fuel (suc n) (suc m) (suc a) b p q =
      omega (arith, run_fuel n m (suc a / 2) (b / 2) (omega arith) (omega arith))

  run_step : (a b : ℕ) → run a a b ≡ run (a / 2) (a / 2) (b / 2) * 2 + f (a % 2) (b % 2)
  run_step zero b = omega (arith, f0 (b % 2) (omega arith))
  run_step (suc a) b =
      omega (arith, run_fuel a (suc a / 2) (suc a / 2) (b / 2) (omega arith) (omega arith))

bit_xor_step : (a b : ℕ) → bit_xor a b ≡ bit_xor (a / 2) (b / 2) * 2 + differ (a % 2) (b % 2)
bit_xor_step a b =
    omega (
      arith,
      run_step differ (λ b h. refl) a b,
      bit_xor-bitwise a b,
      bit_xor-bitwise (a / 2) (b / 2),
    )

bit_or_step : (a b : ℕ) → bit_or a b ≡ bit_or (a / 2) (b / 2) * 2 + max (a % 2) (b % 2)
bit_or_step a b = omega (
  arith,
  run_step max (λ b h. omega arith) a b,
  bit_or-bitwise a b,
  bit_or-bitwise (a / 2) (b / 2),
)

differ_same : (a b : ℕ) → a < 2 → b < 2 → differ a b ≡ 0 → a ≡ b
differ_same zero b p q h = sym h
differ_same (suc zero) zero p q h = h
differ_same (suc zero) (suc b) p q h = omega arith
differ_same (suc (suc a)) b p q h = absurd (omega arith)

differ_self : (a : ℕ) → differ a a ≡ 0
differ_self zero = refl
differ_self (suc a) = differ_self a

xor_same_within : (n a b : ℕ) → a ≤ n → b ≤ n → bit_xor a b ≡ 0 → a ≡ b
xor_same_within zero a b p q h = omega arith
xor_same_within (suc n) a b p q h = omega (
  arith,
  xor_same_within n (a / 2) (b / 2) (omega arith) (omega arith) (omega (arith, bit_xor_step a b)),
  differ_same (a % 2) (b % 2) (omega arith) (omega arith) (omega (arith, bit_xor_step a b)),
)

pub bit_xor-same : (a b : ℕ) → bit_xor a b ≡ 0 → a ≡ b
bit_xor-same a b h = xor_same_within (a + b) a b (omega arith) (omega arith) h

self_within : (n a : ℕ) → a ≤ n → bit_xor a a ≡ 0
self_within zero zero h = refl
self_within zero (suc a) h = absurd (omega arith)
self_within (suc n) zero h = refl
self_within (suc n) (suc a) h = omega (
  arith,
  bit_xor_step (suc a) (suc a),
  self_within n (suc a / 2) (omega arith),
  differ_self (suc a % 2),
)

pub bit_xor_self : (a : ℕ) → bit_xor a a ≡ 0
bit_xor_self a = self_within a a (omega arith)

or_left_within : (n a b : ℕ) → a ≤ n → bit_or a b ≡ 0 → a ≡ 0
or_left_within zero a b p h = omega arith
or_left_within (suc n) zero b p h = refl
or_left_within (suc n) (suc a) b p h = omega (
  arith,
  or_left_within n (suc a / 2) (b / 2) (omega arith) (omega (arith, bit_or_step (suc a) b)),
  bit_or_step (suc a) b,
)

pub bit_or-left : (a b : ℕ) → bit_or a b ≡ 0 → a ≡ 0
bit_or-left a b h = or_left_within a a b (omega arith) h

pub zero-bit_or : (b : ℕ) → bit_or 0 b ≡ b
zero-bit_or b = bit_or-bitwise 0 b
