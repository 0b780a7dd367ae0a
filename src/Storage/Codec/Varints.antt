-- ===== src/Storage/Codec/Varints.antt =====
-- Variable-length integers (codec.cpp: Writer::varint, Reader::varint).
use native.Mathlib.Numerals.{towards_suc}
use native.Mathlib.Nat.{pow-le-pow_right}
use mono_bucket.Base.{
  ◌∙◌, ℕ, zero, suc, ◌+◌, ◌*◌, ◌/◌, ◌%◌, ◌^◌, ◌<◌, ◌≤◌, ◌≡◌, ◌++◌, ltb, ltb→lt, ap, arith, word64,
  Bytes, ok, Bool-cases, inl, inr,
}
use mono_bucket.Storage.Codec.{varint_from, put_varint, get_varint, get_varint_from}

pow_step : (s : ℕ) → 2 ^ (s + 7) ≡ 128 * 2 ^ s
pow_step s = simp towards_suc (omega arith)

pow_pos : (s : ℕ) → 0 < 2 ^ s
pow_pos zero = omega arith
pow_pos (suc s) = omega (arith, pow_pos s)

-- A shift at which a value other than 0 still fits 64 bits is at most 63.
pow_fits : (s : ℕ) → 2 ^ s < word64 → s ≤ 63
pow_fits s h = elim (Bool-cases (ltb 63 s)) [
  | inl large ↦
      let far : 2 ^ 64 ≤ 2 ^ s = pow-le-pow_right (omega arith) (ltb→lt 63 s large) in
      absurd (omega arith)
  | inr small ↦ ground arith
]

-- One group of seven bits at a shift, and the groups after it.
group_value : (r p : ℕ) → r < 128 → r * p < word64 → r % 128 * p % word64 ≡ r * p
group_value r p h k = let e : r % 128 ≡ r = omega arith in rw e (omega arith)

split_value : (v p : ℕ) → v % 128 * p + v / 128 * (128 * p) ≡ v * p
split_value v p =
    let e : v % 128 + v / 128 * 128 ≡ v = omega arith in omega (arith, ap (λ (t : ℕ). t * p) e)

le_multiple : (q t : ℕ) → 1 ≤ q → t ≤ q * t
le_multiple q t h = grind arith

-- What is written is read back, whatever follows, and nothing after it is read.
get_varint_from-varint_from :
    (fuel v acc shift : ℕ) (rest : Bytes)
    → v ≤ fuel
    → shift ≤ 63
    → acc + v * 2 ^ shift < word64
    → get_varint_from acc shift (varint_from fuel v ++ rest) ≡ ok (acc + v * 2 ^ shift, rest)
unfolding get_varint_from varint_from
get_varint_from-varint_from zero v acc shift rest enough small fits =
    let none_left : v ≡ 0 = omega arith in
    ground (arith, group_value v (2 ^ shift) (omega arith) (omega arith))
get_varint_from-varint_from (suc fuel) v acc shift rest enough small fits =
    elim (Bool-cases (ltb v 128)) [
      | inl last ↦
          rw last (ground (arith, group_value v (2 ^ shift) (ltb→lt v 128 last) (omega arith)))
      | inr more ↦
          let p = 2 ^ shift in
          let low : v % 128 * p + v / 128 * (128 * p) ≡ v * p = split_value v p in
          let group : (v % 128 + 128) % 128 ≡ v % 128 = omega arith in
          let here : (v % 128 + 128) % 128 * p % word64 ≡ v % 128 * p = rw group (omega arith) in
          let next : 2 ^ (shift + 7) ≡ 128 * p = pow_step shift in
          let room : 2 ^ (shift + 7) ≤ v / 128 * 2 ^ (shift + 7) =
            le_multiple (v / 128) (2 ^ (shift + 7)) (ground arith) in
          let scaled : v / 128 * 2 ^ (shift + 7) ≡ v / 128 * (128 * p) =
            ap (λ (t : ℕ). v / 128 * t) next in
          let ih =
            get_varint_from-varint_from fuel (v / 128) (acc + v % 128 * p) (shift + 7) rest
              (ground arith) (pow_fits (shift + 7) (omega arith)) (rw next (omega arith)) in
          ground (arith, ih)
    ]

-- A 64-bit number that is written is read back, whatever bytes follow, and nothing after it is read.
pub get_varint-put_varint :
    (v : ℕ) (rest : Bytes) → v < word64 → get_varint (put_varint v ++ rest) ≡ ok (v, rest)
unfolding get_varint put_varint
get_varint-put_varint v rest h =
    get_varint_from-varint_from v v 0 0 rest (omega arith) (omega arith) (omega arith)
    ∙ ap (λ (n : ℕ). ok (n, rest)) (omega arith)
