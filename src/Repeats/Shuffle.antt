-- ===== src/Repeats/Shuffle.antt =====
-- A shuffle keeps the elements.
use device_telemetry_gateway.Common.{
  ℕ, zero, suc, ◌+◌, ◌≡◌, inl, inr, refl, subst, ◌∙◌, if◌then◌else◌, Bool, List, [], ◌∷◌, Option,
  none, some, All, tally, SameItems, Option-cases, arith,
}
use device_telemetry_gateway.Repeats.{get_elem?, set, repeats, swap, swap_found, shuffle}

module _ {A : Type 0} where
  tally-set :
      (p : A → Bool) (xs : List A) (i : ℕ) (a v : A)
      → get_elem? xs i ≡ some a
      → tally p (set xs i v) + (if p a then 1 else 0) ≡ tally p xs + (if p v then 1 else 0)
  tally-set p [] i a v h = absurd (ground arith)
  tally-set p (x ∷ xs) zero a v h = ground arith
  tally-set p (x ∷ xs) (suc i) a v h = omega (arith, tally-set p xs i a v h)

  -- A write of what stands at another index already leaves that index as it is.
  get_elem?-set_same :
      (xs : List A) (i j : ℕ) (b : A) → get_elem? xs j ≡ some b → get_elem? (set xs i b) j ≡ some b
  get_elem?-set_same [] i j b k = k
  get_elem?-set_same (x ∷ xs) zero zero b k = refl
  get_elem?-set_same (x ∷ xs) zero (suc j) b k = k
  get_elem?-set_same (x ∷ xs) (suc i) zero b k = k
  get_elem?-set_same (x ∷ xs) (suc i) (suc j) b k = get_elem?-set_same xs i j b k

  swap_found-SameItems :
      (p : A → Bool) (xs : List A) (i j : ℕ) (x y : Option A)
      → get_elem? xs i ≡ x
      → get_elem? xs j ≡ y
      → tally p (swap_found xs i j x y) ≡ tally p xs
  unfolding swap_found
  swap_found-SameItems p xs i j (some a) (some b) at_i at_j = omega (
    arith,
    tally-set p xs i a b at_i,
    tally-set p (set xs i b) j b a (get_elem?-set_same xs i j b at_j),
  )
  swap_found-SameItems p xs i j (some a) none at_i at_j = refl
  swap_found-SameItems p xs i j none y at_i at_j = refl

  pub shuffle-SameItems : (xs : List A) (swaps : List (ℕ × ℕ)) → SameItems (shuffle xs swaps) xs
  unfolding shuffle swap
  shuffle-SameItems xs [] p = refl
  shuffle-SameItems xs ((i, j) ∷ swaps) p =
      shuffle-SameItems (swap xs (i, j)) swaps p
      ∙ swap_found-SameItems p xs i j (get_elem? xs i) (get_elem? xs j) refl refl

  All-get_elem? :
      (P : A → Type 0) (xs : List A) (i : ℕ) (a : A) → All P xs → get_elem? xs i ≡ some a → P a
  All-get_elem? P [] i a h e = absurd (ground arith)
  All-get_elem? P (x ∷ xs) zero a h e = subst P (ground arith) h.0
  All-get_elem? P (x ∷ xs) (suc i) a h e = All-get_elem? P xs i a h.1 e

  All-set : (P : A → Type 0) (xs : List A) (i : ℕ) (v : A) → All P xs → P v → All P (set xs i v)
  All-set P [] i v h hv = tt
  All-set P (x ∷ xs) zero v h hv = (hv, h.1)
  All-set P (x ∷ xs) (suc i) v h hv = (h.0, All-set P xs i v h.1 hv)

  swap_found-All :
      (P : A → Type 0) (xs : List A) (i j : ℕ) (x y : Option A)
      → get_elem? xs i ≡ x
      → get_elem? xs j ≡ y
      → All P xs
      → All P (swap_found xs i j x y)
  unfolding swap_found
  swap_found-All P xs i j (some a) (some b) at_i at_j h =
      All-set P (set xs i b) j a (All-set P xs i b h (All-get_elem? P xs j b h at_j))
        (All-get_elem? P xs i a h at_i)
  swap_found-All P xs i j (some a) none at_i at_j h = h
  swap_found-All P xs i j none y at_i at_j h = h

  pub shuffle-All :
      (P : A → Type 0) (xs : List A) (swaps : List (ℕ × ℕ)) → All P xs → All P (shuffle xs swaps)
  unfolding shuffle swap
  shuffle-All P xs [] h = h
  shuffle-All P xs ((i, j) ∷ swaps) h =
      shuffle-All P (swap xs (i, j)) swaps
        (swap_found-All P xs i j (get_elem? xs i) (get_elem? xs j) refl refl h)

  pub repeats-All :
      (P : A → Type 0) (xs : List A) (picks : List ℕ) → All P xs → All P (repeats xs picks)
  unfolding repeats
  repeats-All P xs [] h = tt
  repeats-All P xs (i ∷ picks) h = elim (Option-cases (get_elem? xs i)) [
    | inl missing ↦ rw missing (repeats-All P xs picks h)
    | inr (a, found) ↦ rw found (All-get_elem? P xs i a h found, repeats-All P xs picks h)
  ]
