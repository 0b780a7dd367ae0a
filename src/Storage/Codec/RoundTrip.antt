-- ===== src/Storage/Codec/RoundTrip.antt =====
-- Reading back what a writer wrote (codec.cpp): rules to put the round trips of records together.
use mono_bucket.Base.{
  ℕ, ◌<◌, ◌≡◌, refl, ◌∙◌, Bool, true, false, List, [], ◌∷◌, ◌++◌, arith, word64, Bytes, length,
  take-append, drop-append, length-append, ok, All,
}
use mathlib.Core.List.{append_assoc}
use mono_bucket.Storage.Codec.{
  Reader, ◌>>=◌, pure, put_varint, get_varint, put_string, get_string, view_of, put_boolean,
  get_boolean, put_u8, get_u8, put_many, get_many,
}
use mono_bucket.Storage.Codec.Varints.{get_varint-put_varint}

-- `m` reads `a` from `bytes`, whatever follows, and leaves what follows.
pub record Reads {A : Type 0} (m : Reader A) (bytes : Bytes) (a : A) : Type 0 where
  pub at : (rest : Bytes) → m (bytes ++ rest) ≡ ok (a, rest)

module _ {A B : Type 0} where
  pub bind-ok :
      (m : Reader A) (f : A → Reader B) (bytes rest : Bytes) (a : A)
      → m bytes ≡ ok (a, rest)
      → (m >>= f) bytes ≡ f a rest
  bind-ok m f bytes rest a e = rw (e, ◌>>=◌)

  pub Reads-bind :
      {m : Reader A} (f : A → Reader B) {xs ys : Bytes} {a : A} {b : B}
      → Reads m xs a
      → Reads (f a) ys b
      → Reads (m >>= f) (xs ++ ys) b
  Reads-bind {m} f {xs} {ys} {a} r s = record {
    at = λ rest.
        rw append_assoc
          (bind-ok m f (xs ++ (ys ++ rest)) (ys ++ rest) a (r.at (ys ++ rest)) ∙ s.at rest);
  }

  pub Reads-bind_pure :
      {m : Reader A} (f : A → B) {xs : Bytes} {a : A}
      → Reads m xs a
      → Reads (m >>= λ x. pure (f x)) xs (f a)
  Reads-bind_pure {m} f {xs} {a} r = record {
    at = λ rest. bind-ok m (λ x. pure (f x)) (xs ++ rest) rest a (r.at rest);
  }

pub Reads-pure : {A : Type 0} (a : A) → Reads (pure a) [] a
Reads-pure a = record { at = λ rest. refl }

pub Reads-varint : (v : ℕ) → v < word64 → Reads get_varint (put_varint v) v
Reads-varint v h = record { at = λ rest. get_varint-put_varint v rest h }

view_of_length : (s rest : Bytes) → view_of (length s) (s ++ rest) ≡ ok (s, rest)
view_of_length s rest = ground (arith, length-append s rest, take-append s rest, drop-append s rest)

-- A string shorter than 2 ^ 64 bytes is read back.
pub Reads-string : (s : Bytes) → length s < word64 → Reads get_string (put_string s) s
unfolding get_string put_string
Reads-string s h = record {
  at = λ rest. rw append_assoc (
      bind-ok get_varint view_of (put_varint (length s) ++ (s ++ rest)) (s ++ rest) (length s)
        (get_varint-put_varint (length s) (s ++ rest) h)
      ∙ view_of_length s rest);
}

pub Reads-u8 : (b : ℕ) → Reads get_u8 (put_u8 b) b
unfolding get_u8 put_u8
Reads-u8 b = record { at = λ rest. refl }

pub Reads-boolean : (b : Bool) → Reads get_boolean (put_boolean b) b
unfolding get_boolean put_boolean
Reads-boolean true = record { at = λ rest. refl }
Reads-boolean false = record { at = λ rest. refl }

module _ {A : Type 0} (m : Reader A) (f : A → Bytes) where
  pub Reads-many :
      (xs : List A)
      → All (λ x. Reads m (f x) x) xs
      → Reads (get_many (length xs) m) (put_many f xs) xs
  unfolding get_many put_many
  Reads-many [] h = Reads-pure []
  Reads-many (x ∷ xs) (h, hs) = Reads-bind _ h (Reads-bind_pure _ (Reads-many xs hs))

pub ruleset reads_rules =
    (Reads-bind, Reads-bind_pure, Reads-pure, Reads-varint, Reads-string, Reads-u8, Reads-boolean)
