-- ===== src/Repeats/Keys.antt =====
-- The keys of a list, counted.
use device_telemetry_gateway.Common.{
  suc, ◌≤◌, ◌<◌, ◌↔◌, ◌≡◌, inl, inr, refl, ap, ◌∙◌, ite, if_pos, if_neg, Bool, true, false, List,
  [], ◌∷◌, map, tally, SameItems, contains, Distinct, Bool-cases, arith,
}

module _ {A K : Type 0} (dec : Discrete K) (key : A → K) where
  -- `contains` on keys as a count.
  unfoldable pub has_key : K → A → Bool
  has_key k y = ite (dec k (key y)) true false

  pub contains_iff_tally :
      (k : K) (ys : List A) → (contains dec (map key ys) k ≡ true) ↔ (0 < tally (has_key k) ys)
  unfolding contains has_key
  contains_iff_tally k [] = (λ e. absurd (ground arith), λ h. absurd (omega arith))
  contains_iff_tally k (y ∷ ys) = ground (arith, contains_iff_tally k ys)

  tally_absent :
      (k : K) (xs : List A) → contains dec (map key xs) k ≡ false → tally (has_key k) xs ≡ 0
  unfolding contains has_key
  tally_absent k [] h = refl
  tally_absent k (x ∷ xs) h = ground (arith, tally_absent k xs)

  tally_self :
      (x : A) (xs : List A) → tally (has_key (key x)) (x ∷ xs) ≡ suc (tally (has_key (key x)) xs)
  unfolding has_key
  tally_self x xs = ground arith

  Distinct-of_tally :
      (xs : List A) → ((k : K) → tally (has_key k) xs ≤ 1) → Distinct dec (map key xs)
  Distinct-of_tally [] h = tt
  Distinct-of_tally (x ∷ xs) h = (
    elim (Bool-cases (contains dec (map key xs) (key x))) [
      | inl again ↦
          absurd
            (omega (arith, h (key x), tally_self x xs, (contains_iff_tally (key x) xs).0 again))
      | inr once ↦ once
    ],
    Distinct-of_tally xs (λ k. omega (arith, h k)),
  )

  tally-le_of_Distinct :
      (xs : List A) (k : K) → Distinct dec (map key xs) → tally (has_key k) xs ≤ 1
  unfolding has_key
  tally-le_of_Distinct [] k d = omega arith
  tally-le_of_Distinct (x ∷ xs) k d = elim (dec k (key x)) [
    | yes e ↦
        rw (if_pos _ e) (omega (arith, tally_absent k xs (ap (contains dec (map key xs)) e ∙ d.0)))
    | no e ↦ rw (if_neg _ e) (omega (arith, tally-le_of_Distinct xs k d.1))
  ]

  -- Distinct keys do not depend on the order.
  pub Distinct-SameItems :
      (xs ys : List A) → SameItems xs ys → Distinct dec (map key ys) → Distinct dec (map key xs)
  Distinct-SameItems xs ys same d =
      Distinct-of_tally xs (λ k. omega (arith, same (has_key k), tally-le_of_Distinct ys k d))
