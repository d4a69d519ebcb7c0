-- ===== src/Repeats/Due.antt =====
-- What a reference deduplication keeps of a stream whose elements are determined by their keys.
use device_telemetry_gateway.Common.{
  ℕ, ◌+◌, ◌≡◌, ◌≢◌, ◌⊎◌, inl, inr, refl, sym, ap, subst, ◌∙◌, if_neg, if◌then◌else◌, Bool, true,
  false, List, [], ◌∷◌, map, All, tally, SameItems, contains, Distinct, reference, Bool-cases,
  arith,
}

weight_congr : (b c : Bool) → b ≡ c → ◌≡◌ {A = ℕ} (if b then 1 else 0) (if c then 1 else 0)
weight_congr b c h = ground arith

module _ {A K : Type 0} (dec : Discrete K) (key : A → K) where
  abbrev pub In : A → List A → Type 0
  In y [] = ⊥
  In y (x ∷ xs) = (x ≡ y) ⊎ In y xs

  pub In-contains : (y : A) (xs : List A) → In y xs → contains dec (map key xs) (key y) ≡ true
  unfolding contains
  In-contains y [] h = absurd h
  In-contains y (x ∷ xs) (inl e) = ground (arith, ap key e)
  In-contains y (x ∷ xs) (inr h) = ground (arith, In-contains y xs h)

  -- Whether an element counts towards `p`, is not seen yet, and occurs in the stream by its key.
  abbrev due : (A → Bool) → List K → List A → A → Bool
  due p seen ys x =
      if contains dec seen (key x)
      then false
      else if contains dec (map key ys) (key x)
      then p x
      else false

  tally-congr : (p q : A → Bool) (xs : List A) → All (λ x. p x ≡ q x) xs → tally p xs ≡ tally q xs
  tally-congr p q [] h = refl
  tally-congr p q (x ∷ xs) h = omega (arith, weight_congr (p x) (q x) h.0, tally-congr p q xs h.1)

  -- The stream loses its first element, whose key was seen before.
  due_old :
      (p : A → Bool) (seen : List K) (y : A) (ys xs : List A)
      → contains dec seen (key y) ≡ true
      → All (λ x. due p seen (y ∷ ys) x ≡ due p seen ys x) xs
  unfolding contains
  due_old p seen y ys [] old = tt
  due_old p seen y ys (x ∷ xs) old = elim (dec (key x) (key y)) [
    | yes e ↦ (rw (e, old), due_old p seen y ys xs old)
    | no e ↦ (rw (if_neg _ e), due_old p seen y ys xs old)
  ]

  -- Elements with another key than the first one.
  due_apart :
      (p : A → Bool) (seen : List K) (x y : A) (ys : List A)
      → key x ≢ key y
      → due p seen (y ∷ ys) x ≡ due p (key y ∷ seen) ys x
  unfolding contains
  due_apart p seen x y ys h = rw (if_neg _ h, if_neg _ h)

  due_others :
      (p : A → Bool) (seen : List K) (y : A) (ys xs : List A)
      → contains dec (map key xs) (key y) ≡ false
      → All (λ x. due p seen (y ∷ ys) x ≡ due p (key y ∷ seen) ys x) xs
  unfolding contains
  due_others p seen y ys [] h = tt
  due_others p seen y ys (x ∷ xs) h =
      (due_apart p seen x y ys (λ e. ground arith), due_others p seen y ys xs (ground arith))

  contains-head : (k : K) (ks : List K) → contains dec (k ∷ ks) k ≡ true
  unfolding contains
  contains-head k ks = ground arith

  due_first :
      (p : A → Bool) (seen : List K) (y : A) (ys xs : List A)
      → contains dec seen (key y) ≡ false
      → contains dec (map key xs) (key y) ≡ false
      → tally (due p seen (y ∷ ys)) (y ∷ xs)
        ≡ (if p y then 1 else 0) + tally (due p (key y ∷ seen) ys) (y ∷ xs)
  due_first p seen y ys xs new once =
      let same =
        tally-congr (due p seen (y ∷ ys)) (due p (key y ∷ seen) ys) xs
          (due_others p seen y ys xs once) in
      rw (new, contains-head (key y) (map key ys), contains-head (key y) seen) (omega (arith, same))

  due_new :
      (p : A → Bool) (seen : List K) (y : A) (ys xs : List A)
      → contains dec seen (key y) ≡ false
      → Distinct dec (map key xs)
      → In y xs
      → tally (due p seen (y ∷ ys)) xs ≡ (if p y then 1 else 0) + tally (due p (key y ∷ seen) ys) xs
  due_new p seen y ys [] new d h = absurd h
  due_new p seen y ys (x ∷ xs) new d (inl e) =
      subst
        (λ z.
          tally (due p seen (z ∷ ys)) (x ∷ xs)
          ≡ (if p z then 1 else 0) + tally (due p (key z ∷ seen) ys) (x ∷ xs))
        e (due_first p seen x ys xs (ap (λ z. contains dec seen (key z)) e ∙ new) d.0)
  due_new p seen y ys (x ∷ xs) new d (inr h) =
      let apart : key x ≢ key y = λ e. cc (In-contains y xs h, d.0) in
      omega (
        arith,
        due_new p seen y ys xs new d.1 h,
        weight_congr (due p seen (y ∷ ys) x) (due p (key y ∷ seen) ys x)
            (due_apart p seen x y ys apart),
      )

  nothing_due : (p : A → Bool) (seen : List K) (xs : List A) → tally (due p seen []) xs ≡ 0
  unfolding contains
  nothing_due p seen [] = refl
  nothing_due p seen (x ∷ xs) = elim (Bool-cases (contains dec seen (key x))) [
    | inl old ↦ rw old (omega (arith, nothing_due p seen xs))
    | inr new ↦ rw new (omega (arith, nothing_due p seen xs))
  ]

  tally-reference :
      (p : A → Bool) (seen : List K) (ys xs : List A)
      → Distinct dec (map key xs)
      → All (λ y. In y xs) ys
      → tally p (reference dec key seen ys) ≡ tally (due p seen ys) xs
  unfolding reference
  tally-reference p seen [] xs d h = sym (nothing_due p seen xs)
  tally-reference p seen (y ∷ ys) xs d h = elim (Bool-cases (contains dec seen (key y))) [
    | inl old ↦ rw old (
        tally-reference p seen ys xs d h.1
        ∙ sym (tally-congr (due p seen (y ∷ ys)) (due p seen ys) xs (due_old p seen y ys xs old)))
    | inr new ↦ rw new (
        omega
          (arith, tally-reference p (key y ∷ seen) ys xs d h.1, due_new p seen y ys xs new d h.0))
  ]

  every_due :
      (p : A → Bool) (ys xs : List A)
      → All (λ x. contains dec (map key ys) (key x) ≡ true) xs
      → tally (due p [] ys) xs ≡ tally p xs
  unfolding contains
  every_due p ys [] h = refl
  every_due p ys (x ∷ xs) h = rw h.0 (omega (arith, every_due p ys xs h.1))

  -- Of a stream that holds each of the elements, which have distinct keys, and nothing else, the reference
  -- keeps each element once.
  pub reference-SameItems :
      (ys xs : List A)
      → Distinct dec (map key xs)
      → All (λ y. In y xs) ys
      → All (λ x. contains dec (map key ys) (key x) ≡ true) xs
      → SameItems (reference dec key [] ys) xs
  reference-SameItems ys xs d inside every p =
      tally-reference p [] ys xs d inside ∙ every_due p ys xs every
