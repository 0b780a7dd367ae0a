-- ===== src/Storage/Keyspace/Ranges.antt =====
-- The order of the stored keys, byte by byte as the store compares them, and the ranges that are
-- scanned (keyspace.cpp: upperBound, part, audit).
use mono_bucket.Base.{
  ℕ, ◌/◌, ◌%◌, ◌^◌, ◌<◌, Bool, true, false, not, ◌&&◌, Option, none, some, [], ◌∷◌, ◌++◌, ◌==◌, ltb,
  if◌then◌else◌, length, Bytes, IsBytes, ◌≡◌, refl, ◌∙◌, arith, Option-cases, inl, inr,
}
use mono_bucket.Storage.Keyspace.{
  after_prefix, upper_bound, bound_of, big_endian, part, audit, part_prefix,
}

-- The store's order: a byte string before another.
unfoldable pub lex : Bytes → Bytes → Bool
lex s [] = false
lex [] (c ∷ t) = true
lex (b ∷ s) (c ∷ t) = if b == c then lex s t else ltb b c

abbrev is_found : Option Bytes → Bool
is_found none = false
is_found (some s) = true

unfoldable pub starts_with : Bytes → Bytes → Bool
starts_with p s = is_found (after_prefix p s)

-- A prefix without an upper bound is one of 0xFF only.
pub prefix_to_the_end :
    (p s : Bytes) → IsBytes s → upper_bound p ≡ none → not (lex s p) ≡ starts_with p s
unfolding upper_bound bound_of lex starts_with after_prefix
prefix_to_the_end [] s h e = refl
prefix_to_the_end (c ∷ p) [] h e = refl
prefix_to_the_end (c ∷ p) (b ∷ s) (hb, h) e = elim (Option-cases (upper_bound p)) [
  | inl all_ff ↦ ground (arith, prefix_to_the_end p s h all_ff)
  | inr (v, found) ↦ ground arith
]

-- Where a prefix has an upper bound, a byte string has the prefix exactly where it is not before the
-- prefix and is before the bound, in the order of the bytes.
pub upper_bound-prefix :
    (p u s : Bytes)
    → IsBytes s
    → upper_bound p ≡ some u
    → (not (lex s p) && lex s u) ≡ starts_with p s
unfolding upper_bound bound_of lex starts_with after_prefix
upper_bound-prefix [] u s h e = ground arith
upper_bound-prefix (c ∷ p) u [] h e = ground arith
upper_bound-prefix (c ∷ p) u (b ∷ s) (hb, h) e = elim (Option-cases (upper_bound p)) [
  | inl all_ff ↦ ground (arith, prefix_to_the_end p s h all_ff)
  | inr (v, found) ↦ ground (arith, upper_bound-prefix p v s h found)
]

lex-append : (p s t : Bytes) → lex (p ++ s) (p ++ t) ≡ lex s t
unfolding lex
lex-append [] s t = refl
lex-append (b ∷ p) s t = ground (arith, lex-append p s t)

lex-big_endian4 :
    (n m : ℕ) → n < 2 ^ 32 → m < 2 ^ 32 → lex (big_endian 4 n) (big_endian 4 m) ≡ ltb n m
unfolding lex big_endian
lex-big_endian4 n m hn hm = ground arith

-- Of two keys that start with pieces of one length, these decide unless they agree.
lex_pieces :
    (a b s t : Bytes)
    → length a ≡ length b
    → lex (a ++ s) (b ++ t) ≡ (if lex a b then true else if lex b a then false else lex s t)
unfolding lex
lex_pieces [] [] s t h = refl
lex_pieces [] (c ∷ b) s t h = absurd (omega arith)
lex_pieces (c ∷ a) [] s t h = absurd (omega arith)
lex_pieces (c ∷ a) (d ∷ b) s t h = ground (arith, lex_pieces a b s t)

halves : (n : ℕ) → big_endian 8 n ≡ big_endian 4 (n / 2 ^ 32) ++ big_endian 4 (n % 2 ^ 32)
unfolding big_endian
halves n = ground arith

same_length : (n m : ℕ) → length (big_endian 4 n) ≡ length (big_endian 4 m)
unfolding big_endian
same_length n m = refl

lex-big_endian8 :
    (n m : ℕ) → n < 2 ^ 64 → m < 2 ^ 64 → lex (big_endian 8 n) (big_endian 8 m) ≡ ltb n m
lex-big_endian8 n m hn hm = rw (halves n) (
    rw (halves m) (
      lex_pieces (big_endian 4 (n / 2 ^ 32)) (big_endian 4 (m / 2 ^ 32)) (big_endian 4 (n % 2 ^ 32))
        (big_endian 4 (m % 2 ^ 32)) (same_length (n / 2 ^ 32) (m / 2 ^ 32))
      ∙ ground (
        arith,
        lex-big_endian4 (n / 2 ^ 32) (m / 2 ^ 32),
        lex-big_endian4 (m / 2 ^ 32) (n / 2 ^ 32),
        lex-big_endian4 (n % 2 ^ 32) (m % 2 ^ 32),
      )))

-- Two parts of an upload are stored in the order of their numbers, which are below 2 ^ 32.
pub part_order :
    (id : Bytes) (n m : ℕ) → n < 2 ^ 32 → m < 2 ^ 32 → lex (part id n) (part id m) ≡ ltb n m
unfolding part
part_order id n m hn hm =
    lex-append (part_prefix id) (big_endian 4 n) (big_endian 4 m) ∙ lex-big_endian4 n m hn hm

-- The audit entries are stored in the order of their sequence.
pub audit_order : (n m : ℕ) → n < 2 ^ 64 → m < 2 ^ 64 → lex (audit n) (audit m) ≡ ltb n m
unfolding audit lex
audit_order n m hn hm = lex-big_endian8 n m hn hm
