-- ===== src/Fifo/Newest.antt =====
-- The last `n` elements of a list.
use device_telemetry_gateway.Common.{
  ℕ, zero, suc, ◌+◌, ◌-◌, ◌≤◌, ◌≡◌, refl, sym, List, [], ◌∷◌, ◌++◌, arith, length, drop,
  length-append,
}
use native.Mathlib.Nat.{zero-add, suc-add}

abbrev pub newest {ℓ} : {A : Type ℓ} → ℕ → List A → List A
newest n xs = drop (length xs - n) xs

module _ {ℓ} {A : Type ℓ} where
  pub length-drop : (n : ℕ) (xs : List A) → length (drop n xs) ≡ length xs - n
  length-drop zero xs = omega arith
  length-drop (suc n) [] = omega arith
  length-drop (suc n) (x ∷ xs) = omega (arith, length-drop n xs)

  pub drop-append_le :
      (n : ℕ) (xs ys : List A) → n ≤ length xs → drop n (xs ++ ys) ≡ drop n xs ++ ys
  drop-append_le zero xs ys h = refl
  drop-append_le (suc n) [] ys h = absurd (omega arith)
  drop-append_le (suc n) (x ∷ xs) ys h = drop-append_le n xs ys (omega arith)

  drop-drop : (n m : ℕ) (xs : List A) → drop n (drop m xs) ≡ drop (m + n) xs
  drop-drop n zero xs = rw zero-add
  drop-drop zero (suc m) [] = rw suc-add
  drop-drop (suc n) (suc m) [] = rw suc-add
  drop-drop n (suc m) (x ∷ xs) = rw suc-add (drop-drop n m xs)

  pub length-newest-le : (n : ℕ) (xs : List A) → length (newest n xs) ≤ n
  length-newest-le n xs = omega (arith, length-drop (length xs - n) xs)

  pub newest_of_length-le : (n : ℕ) (xs : List A) → length xs ≤ n → newest n xs ≡ xs
  newest_of_length-le n xs h = let none_over : length xs - n ≡ 0 = omega arith in rw none_over

  -- To append and keep the last `n`, only the last `n` before matter.
  pub newest-append : (n : ℕ) (xs ys : List A) → newest n (newest n xs ++ ys) ≡ newest n (xs ++ ys)
  newest-append n xs ys =
      let k = length xs - n in
      let split : drop k xs ++ ys ≡ drop k (xs ++ ys) =
        sym (drop-append_le k xs ys (omega arith)) in
      let over : k + (length (xs ++ ys) - k - n) ≡ length (xs ++ ys) - n =
        omega (arith, length-append xs ys) in
      rw (split, length-drop, drop-drop, over)
