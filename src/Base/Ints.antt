-- ===== src/Base/Ints.antt =====
-- Signed integers, and the `std::int32_t` that a 64-bit number is cast to.
use Prim.Native.Nat.{ℕ, ◌-◌, ◌%◌, ◌^◌}
use mono_bucket.Base.Tests.{ltb, if◌then◌else◌}

-- `negsuc n` is -(n + 1).
pub data ℤ : Type 0 where
  pos : ℕ → ℤ
  negsuc : ℕ → ℤ

-- `static_cast<std::int32_t>`
unfoldable pub to_int32 : ℕ → ℤ
to_int32 n = let low = n % 2 ^ 32 in if ltb low (2 ^ 31) then pos low else negsuc (2 ^ 32 - low - 1)
