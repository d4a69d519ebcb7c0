-- ===== src/Fifo/Again.antt =====
-- An element that was just offered is refused.
use device_telemetry_gateway.Common.{
  ℕ, ◌-◌, ◌<◌, ◌≡◌, ◌∙◌, ap, true, false, List, [], ◌∷◌, ◌++◌, arith, length, contains,
  contains-append, drop, length-append, Bool-cases, inl, inr,
}
use device_telemetry_gateway.Fifo.{Fifo, admit}
use device_telemetry_gateway.Fifo.Newest.{newest, drop-append_le}
use device_telemetry_gateway.Fifo.Valid.{IsFifo, admit-IsFifo, order-admit_fresh, admit_seen}

module _ {A : Type 0} (dec : Discrete A) (cap : ℕ) where
  contains-newest_last :
      (xs : List A) (x : A) → 0 < cap → contains dec (newest cap (xs ++ (x ∷ []))) x ≡ true
  unfolding contains
  contains-newest_last xs x h =
      let k = length (xs ++ (x ∷ [])) - cap in
      let split : drop k (xs ++ (x ∷ [])) ≡ drop k xs ++ (x ∷ []) =
        drop-append_le k xs (x ∷ []) (omega (arith, length-append xs (x ∷ []))) in
      rw split (ground (arith, contains-append dec (drop k xs) (x ∷ []) x))

  -- Whatever the first call answered, the second changes nothing and answers false.
  pub admit_again :
      (f : Fifo A) (x : A)
      → 0 < cap
      → IsFifo dec cap f
      → let g = (admit dec cap f x).0 in admit dec cap g x ≡ (g, false)
  admit_again f x h v =
      let g = (admit dec cap f x).0 in
      elim (Bool-cases (contains dec f.order x)) [
        | inl old ↦ rw (admit_seen dec cap f x v old) (admit_seen dec cap f x v old)
        | inr fresh ↦ admit_seen dec cap g x (admit-IsFifo dec cap f x v) (
            ap (λ (o : List A). contains dec o x) (order-admit_fresh dec cap f x v fresh).1
            ∙ contains-newest_last f.order x h)
      ]
