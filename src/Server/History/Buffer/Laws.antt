-- ===== src/Server/History/Buffer/Laws.antt =====
-- backend/src/server/metrics_history.cpp: what the ring holds.
use mono_bucket.Base.{
  ℕ, zero, suc, ◌+◌, ◌-◌, ◌%◌, ◌≤◌, ◌<◌, ◌≡◌, refl, ◌∙◌, sym, ap, inl, inr, Bool, true, false, List,
  [], ◌∷◌, ◌++◌, ltb, ◌==◌, if◌then◌else◌, length, take, drop, append_assoc, length-append,
  length-take, arith, Bool-cases,
}
use native.Mathlib.Nat.{mod-eq_of_lt, mod_self}
use mathlib.Core.List.{append-nil}
use mono_bucket.Server.History.Buffer.{Ring, copies, new_ring, set_at, push, contents, pushes}

next_small : (n len : ℕ) → n + 1 < len → (n + 1) % len ≡ suc n
next_small n len h = mod-eq_of_lt h ∙ omega arith

next_turn : (n len : ℕ) → suc n ≡ len → (n + 1) % len ≡ 0
next_turn n len h = ap (λ m. m % len) (omega (arith, h)) ∙ mod_self len

module _ {ℓ} {A : Type ℓ} where
  -- One more at the end, and the first one gone where there would be more than `c`.
  abbrev kept : ℕ → List A → A → List A
  kept c ys x = if ltb (length ys) c then ys ++ (x ∷ []) else drop 1 ys ++ (x ∷ [])

  length-set_at : (n : ℕ) (x : A) (ring : List A) → length (set_at n x ring) ≡ length ring
  unfolding set_at
  length-set_at n x [] = refl
  length-set_at zero x (y ∷ ring) = refl
  length-set_at (suc n) x (y ∷ ring) = ap (λ k. suc k) (length-set_at n x ring)

  take-set_at :
      (n : ℕ) (x : A) (ring : List A)
      → n < length ring
      → take (suc n) (set_at n x ring) ≡ take n ring ++ (x ∷ [])
  unfolding set_at
  take-set_at n x [] h = absurd (omega arith)
  take-set_at zero x (y ∷ ring) h = refl
  take-set_at (suc n) x (y ∷ ring) h = ap (λ l. y ∷ l) (take-set_at n x ring (omega arith))

  drop-set_at : (n : ℕ) (x : A) (ring : List A) → drop (suc n) (set_at n x ring) ≡ drop (suc n) ring
  unfolding set_at
  drop-set_at n x [] = refl
  drop-set_at zero x (y ∷ ring) = refl
  drop-set_at (suc n) x (y ∷ ring) = drop-set_at n x ring

  drop-one : (n : ℕ) (ring : List A) → drop 1 (drop n ring) ≡ drop (suc n) ring
  drop-one zero ring = refl
  drop-one (suc n) [] = refl
  drop-one (suc n) (y ∷ ring) = drop-one n ring

  take-all : (n : ℕ) (xs : List A) → length xs ≤ n → take n xs ≡ xs
  take-all zero [] h = refl
  take-all zero (x ∷ xs) h = absurd (omega arith)
  take-all (suc n) [] h = refl
  take-all (suc n) (x ∷ xs) h = ap (λ l. x ∷ l) (take-all n xs (omega arith))

  drop-all : (n : ℕ) (xs : List A) → length xs ≤ n → drop n xs ≡ []
  drop-all zero [] h = refl
  drop-all zero (x ∷ xs) h = absurd (omega arith)
  drop-all (suc n) [] h = refl
  drop-all (suc n) (x ∷ xs) h = drop-all n xs (omega arith)

  length-drop : (n : ℕ) (xs : List A) → length (drop n xs) ≡ length xs - n
  length-drop zero xs = omega arith
  length-drop (suc n) [] = omega arith
  length-drop (suc n) (x ∷ xs) = omega (arith, length-drop n xs)

  drop-append_within :
      (n : ℕ) (xs ys : List A) → n ≤ length xs → drop n (xs ++ ys) ≡ drop n xs ++ ys
  drop-append_within zero xs ys h = refl
  drop-append_within (suc n) [] ys h = absurd (omega arith)
  drop-append_within (suc n) (x ∷ xs) ys h = drop-append_within n xs ys (omega arith)

  -- A ring of `c` places, the next of them within it.
  pub record IsRing (c : ℕ) (r : Ring A) : Type ℓ where
    pub size : length r.ring ≡ c
    pub inside : r.next < c

  push-IsRing : (c : ℕ) (x : A) (r : Ring A) → IsRing c r → IsRing c (push x r)
  unfolding push
  push-IsRing c x r h = record {
    size = length-set_at r.next x r.ring ∙ h.size;
    inside = omega (arith, h.size, h.inside);
  }

  -- What is held_after, for each form of the ring.
  abbrev ring_view : Bool → ℕ → List A → List A
  ring_view w n ring = if w then drop n ring ++ take n ring else take n ring

  kept-straight :
      (c n : ℕ) (x : A) (ring : List A)
      → length ring ≡ c
      → n < c
      → kept c (take n ring) x ≡ take n ring ++ (x ∷ [])
  kept-straight c n x ring s h =
      let few : ltb (length (take n ring)) c ≡ true =
        ground (arith, length-take n ring (omega (arith, s, h))) in
      rw few refl

  kept-wrapped :
      (c n : ℕ) (x : A) (ring : List A)
      → length ring ≡ c
      → n < c
      → kept c (drop n ring ++ take n ring) x ≡ drop (suc n) ring ++ (take n ring ++ (x ∷ []))
  kept-wrapped c n x ring s h =
      let short = length-take n ring (omega (arith, s, h)) in
      let rest = length-drop n ring in
      let both = length-append (drop n ring) (take n ring) in
      let full : ltb (length (drop n ring ++ take n ring)) c ≡ false =
        ground (arith, short, rest, both, s, h) in
      rw full (
        ap (λ l. l ++ (x ∷ []))
          (drop-append_within 1 (drop n ring) (take n ring) (omega (arith, rest, s, h))
            ∙ ap (λ l. l ++ take n ring) (drop-one n ring))
        ∙ append_assoc (drop (suc n) ring) (take n ring) (x ∷ []))

  held_after :
      (c n : ℕ) (x : A) (ring : List A) (w : Bool)
      → length ring ≡ c
      → n < c
      → kept c (ring_view w n ring) x
        ≡ (if w then drop (suc n) ring else []) ++ (take n ring ++ (x ∷ []))
  held_after c n x ring true s h = kept-wrapped c n x ring s h
  held_after c n x ring false s h = kept-straight c n x ring s h

  view-set_at :
      (n : ℕ) (x : A) (ring : List A) (w : Bool)
      → n < length ring
      → ring_view w (suc n) (set_at n x ring)
        ≡ (if w then drop (suc n) ring else []) ++ (take n ring ++ (x ∷ []))
  view-set_at n x ring true h =
      ap (λ l. l ++ take (suc n) (set_at n x ring)) (drop-set_at n x ring)
      ∙ ap (λ l. drop (suc n) ring ++ l) (take-set_at n x ring h)
  view-set_at n x ring false h = take-set_at n x ring h

  view-turn :
      (n : ℕ) (x : A) (ring : List A) (w : Bool)
      → suc n ≡ length ring
      → ring_view true 0 (set_at n x ring)
        ≡ (if w then drop (suc n) ring else []) ++ (take n ring ++ (x ∷ []))
  view-turn n x ring w h =
      append-nil (set_at n x ring)
      ∙ sym (take-all (suc n) (set_at n x ring) (omega (arith, length-set_at n x ring, h)))
      ∙ take-set_at n x ring (omega arith)
      ∙ ap (λ l. l ++ (take n ring ++ (x ∷ []))) (none w)
    where
      none : (w : Bool) → [] ≡ (if w then drop (suc n) ring else [])
      none true = sym (drop-all (suc n) ring (omega arith))
      none false = refl

  contents-push :
      (c : ℕ) (x : A) (r : Ring A) → IsRing c r → contents (push x r) ≡ kept c (contents r) x
  unfolding contents push
  contents-push c x r h =
      let target = held_after c r.next x r.ring r.wrapped h.size h.inside in
      elim (Bool-cases (ltb (r.next + 1) c)) [
        | inl t ↦
            let next = next_small r.next (length r.ring) (ground (arith, h.size, t)) in
            let more : (suc r.next == 0) ≡ false = ground arith in
            rw (next, more)
              (view-set_at r.next x r.ring r.wrapped (omega (arith, h.size, h.inside)) ∙ sym target)
        | inr f ↦
            let turn : suc r.next ≡ length r.ring = ground (arith, h.size, h.inside, f) in
            rw (next_turn r.next (length r.ring) turn)
              (view-turn r.next x r.ring r.wrapped turn ∙ sym target)
      ]

  pushed : ℕ → List A → List A → List A
  pushed c ys [] = ys
  pushed c ys (x ∷ xs) = pushed c (kept c ys x) xs

  contents-pushes :
      (c : ℕ) (xs : List A) (r : Ring A)
      → IsRing c r
      → contents (pushes xs r) ≡ pushed c (contents r) xs
  unfolding pushes pushed
  contents-pushes c [] r h = refl
  contents-pushes c (x ∷ xs) r h =
      contents-pushes c xs (push x r) (push-IsRing c x r h)
      ∙ ap (λ ys. pushed c ys xs) (contents-push c x r h)

  pushed-last :
      (c : ℕ) (xs ys : List A)
      → length ys ≤ c
      → 0 < c
      → pushed c ys xs ≡ drop (length ys + length xs - c) (ys ++ xs)
  unfolding pushed
  pushed-last c [] ys h p =
      sym (append-nil ys) ∙ ap (λ n. drop n (ys ++ [])) {x = 0} (omega (arith, h))
  pushed-last c (x ∷ xs) ys h p = elim (Bool-cases (ltb (length ys) c)) [
    | inl t ↦
        let long = length-append ys (x ∷ []) in
        let same : length (ys ++ (x ∷ [])) + length xs - c ≡ length ys + suc (length xs) - c =
          omega (arith, long) in
        rw t (
          pushed-last c xs (ys ++ (x ∷ [])) (ground (arith, long, t)) p
          ∙ ap (λ l. drop (length (ys ++ (x ∷ [])) + length xs - c) l) (append_assoc ys (x ∷ []) xs)
          ∙ ap (λ n. drop n (ys ++ (x ∷ xs))) same)
    | inr f ↦ rw f (full (λ zs e. pushed-last c xs zs e p) ys (ground (arith, h, f)))
  ]
    where
      full :
          ((zs : List A)
            → length zs ≤ c
            → pushed c zs xs ≡ drop (length zs + length xs - c) (zs ++ xs))
          → (ys : List A) → length ys ≡ c
          → pushed c (drop 1 ys ++ (x ∷ [])) xs
            ≡ drop (length ys + suc (length xs) - c) (ys ++ (x ∷ xs))
      full later [] e = absurd (omega arith)
      full later (y ∷ ys) e =
          let long = length-append ys (x ∷ []) in
          let one : length (ys ++ (x ∷ [])) + length xs - c ≡ length xs = omega (arith, long, e) in
          let two : suc (length xs) ≡ length (y ∷ ys) + suc (length xs) - c = omega (arith, e) in
          later (ys ++ (x ∷ [])) (omega (arith, long, e))
          ∙ ap (λ l. drop (length (ys ++ (x ∷ [])) + length xs - c) l) (append_assoc ys (x ∷ []) xs)
          ∙ ap (λ n. drop n (ys ++ (x ∷ xs))) one
          ∙ ap (λ n. drop n (y ∷ (ys ++ (x ∷ xs)))) two

  length-copies : (x : A) (n : ℕ) → length (copies x n) ≡ n
  unfolding copies
  length-copies x zero = refl
  length-copies x (suc n) = ap (λ k. suc k) (length-copies x n)

  -- A new ring of c places holds, after any pushes, the last c of what was pushed, in that order.
  pub contents-last :
      (blank : A) (c : ℕ) (xs : List A)
      → 0 < c
      → contents (pushes xs (new_ring blank c)) ≡ drop (length xs - c) xs
  unfolding contents new_ring
  contents-last blank c xs p =
      contents-pushes c xs (new_ring blank c) (record { size = length-copies blank c; inside = p })
      ∙ pushed-last c xs [] (omega arith) p
      ∙ ap (λ n. drop n xs) (omega arith)
