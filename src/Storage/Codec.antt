-- ===== src/Storage/Codec.antt =====
-- backend/src/storage/codec.hpp and codec.cpp: the length-prefixed record format. A writer appends the
-- bytes that a function below returns; a reader is the input from its offset on. The text of a
-- `DecodeError` is left out.
pub mod Varints
pub mod RoundTrip
use mono_bucket.Base.{
  ℕ, zero, suc, ◌+◌, ◌*◌, ◌/◌, ◌%◌, ◌^◌, Bool, true, false, not, List, [], ◌∷◌, ◌++◌, ltb, ◌==◌,
  if◌then◌else◌, word64, Bytes, length, take, drop, Result, ok, err,
}

pub data DecodeError : Type 0 where
  truncated varint_too_long string_too_long list_too_long unknown_access : DecodeError

-- Reader: what is read, and the bytes after it.
abbrev pub Reader : Type 0 → Type 0
Reader A = Bytes → Result DecodeError (A × Bytes)

infixl 5 ◌>>=◌
abbrev pub ◌>>=◌ : {A B : Type 0} → Reader A → (A → Reader B) → Reader B
◌>>=◌ m f bytes = elim (m bytes) [ ok (a, rest) ↦ f a rest | err e ↦ err e ]

abbrev pub pure : {A : Type 0} → A → Reader A
pure a bytes = ok (a, bytes)

abbrev pub fail : {A : Type 0} → DecodeError → Reader A
fail e bytes = err e

-- Writer::u8
unfoldable pub put_u8 : ℕ → Bytes
put_u8 value = value ∷ []

-- The loop of Writer::varint: `(value & 0x7F) | 0x80`, then `value >> 7`. Each round divides by 128,
-- so as many rounds as the value are enough.
unfoldable pub varint_from : ℕ → ℕ → Bytes
varint_from zero value = value ∷ []
varint_from (suc fuel) value =
    let more = ((value % 128 + 128) ∷ varint_from fuel (value / 128)) in
    if ltb value 128 then value ∷ [] else more

unfoldable pub put_varint : ℕ → Bytes
unfolding varint_from
put_varint value = varint_from value value

unfoldable pub put_string : Bytes → Bytes
put_string value = put_varint (length value) ++ value

unfoldable pub put_boolean : Bool → Bytes
unfolding put_u8
put_boolean value = put_u8 (if value then 1 else 0)

-- Reader::u8
unfoldable pub get_u8 : Reader ℕ
get_u8 [] = err truncated
get_u8 (b ∷ bytes) = ok (b, bytes)

-- The loop of Reader::varint. The groups read so far lie below `2 ^ shift`, so `|=` is a sum; the
-- shift of a `std::uint64_t` drops what passes 64 bits.
unfoldable pub get_varint_from : ℕ → ℕ → Reader ℕ
get_varint_from value shift [] = err truncated
get_varint_from value shift (b ∷ bytes) =
    let value' = value + b % 128 * 2 ^ shift % word64 in
    let more = get_varint_from value' (shift + 7) bytes in
    if ltb 63 shift then err varint_too_long else if ltb b 128 then ok (value', bytes) else more

unfoldable pub get_varint : Reader ℕ
unfolding get_varint_from
get_varint = get_varint_from 0 0

-- Reader::stringView and Reader::string
abbrev pub view_of : ℕ → Reader Bytes
view_of n bytes =
    if ltb (length bytes) n then err string_too_long else ok (take n bytes, drop n bytes)

unfoldable pub get_string : Reader Bytes
get_string = get_varint >>= view_of

unfoldable pub get_boolean : Reader Bool
unfolding get_u8
get_boolean = get_u8 >>= λ b. pure (not (b == 0))

-- `for` loops that read a number of values.
unfoldable pub get_many : {A : Type 0} → ℕ → Reader A → Reader (List A)
get_many zero m = pure []
get_many (suc n) m = m >>= λ x. get_many n m >>= λ xs. pure (x ∷ xs)

unfoldable pub put_many {ℓ} : {A : Type ℓ} → (A → Bytes) → List A → Bytes
put_many f [] = []
put_many f (x ∷ xs) = f x ++ put_many f xs
