-- ===== src/Repeats/Laws.antt =====
-- A reference deduplication of a stream with repeats gives the original elements.
use device_telemetry_gateway.Common.{
  ℕ, inl, inr, refl, List, [], ◌∷◌, ◌++◌, map, All, All-append, tally-append, SameItems, Distinct,
  reference, arith,
}
use device_telemetry_gateway.Repeats.{repeats, shuffle, with_repeats}
use device_telemetry_gateway.Repeats.Shuffle.{shuffle-SameItems, shuffle-All, repeats-All}
use device_telemetry_gateway.Repeats.Keys.{has_key, contains_iff_tally}
use device_telemetry_gateway.Repeats.Due.{In, In-contains, reference-SameItems}

module _ {A K : Type 0} (dec : Discrete K) (key : A → K) where
  All-In : (xs : List A) → All (λ y. In dec key y xs) xs
  All-In xs = go xs xs (λ y h. h)
    where
      go :
          (front all : List A)
          → ((y : A) → In dec key y front → In dec key y all)
          → All (λ y. In dec key y all) front
      go [] all sub = tt
      go (x ∷ front) all sub = (sub x (inl refl), go front all (λ y h. sub y (inr h)))

  All-weaken : {P Q : A → Type 0} (xs : List A) → ((x : A) → P x → Q x) → All P xs → All Q xs
  All-weaken [] f h = tt
  All-weaken (x ∷ xs) f h = (f x h.0, All-weaken xs f h.1)

  -- A stream of elements with distinct keys, some of them repeated, in any order: the reference keeps each
  -- element once.
  pub reference-with_repeats :
      (xs : List A) (picks : List ℕ) (swaps : List (ℕ × ℕ))
      → Distinct dec (map key xs)
      → SameItems (reference dec key [] (with_repeats xs picks swaps)) xs
  unfolding with_repeats
  reference-with_repeats xs picks swaps d =
      let stream = xs ++ repeats xs picks in
      reference-SameItems dec key (shuffle stream swaps) xs d
        (shuffle-All (λ y. In dec key y xs) stream swaps
          (All-append (λ y. In dec key y xs) xs (repeats xs picks) (All-In xs)
            (repeats-All (λ y. In dec key y xs) xs picks (All-In xs))))
        (All-weaken xs
          (λ x inside. (contains_iff_tally dec key (key x) (shuffle stream swaps)).1 (
            omega (
              arith,
              shuffle-SameItems stream swaps (has_key dec key (key x)),
              tally-append (has_key dec key (key x)) xs (repeats xs picks),
              (contains_iff_tally dec key (key x) xs).0 (In-contains dec key x xs inside),
            )))
          (All-In xs))
