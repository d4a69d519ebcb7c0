-- ===== src/Common/Sets.antt =====
-- Finite sets and sequences of distinct keys over a type with decidable equality: Go's
-- `map[K]bool` and `map[K]struct{}`, as lists of keys. (Keys stand at level 0: the case splits on their equality mix
-- them with `Bool`.)
use Prim.Native.Nat.{◌+◌}
use mathlib.Core.Path.{◌≡◌, refl}
use mathlib.Core.Logic.{ite}
use mathlib.Core.Bool.{Bool, true, false}
use mathlib.Core.List.{List, [], ◌∷◌, ◌++◌}
use native.Mathlib.Omega.{arith}
use device_telemetry_gateway.Common.Tests.{if◌then◌else◌}
use device_telemetry_gateway.Common.Lists.{length}

module _ {A : Type 0} (dec : Discrete A) where
  -- `_, ok := m[x]`
  unfoldable pub contains : List A → A → Bool
  contains [] x = false
  contains (y ∷ ys) x = ite (dec x y) true (contains ys x)

  -- `delete(m, x)`
  unfoldable pub remove : List A → A → List A
  remove [] x = []
  remove (y ∷ ys) x = ite (dec x y) (remove ys x) (y ∷ remove ys x)

  abbrev pub Distinct : List A → Type 0
  Distinct [] = Unit
  Distinct (x ∷ xs) = (contains xs x ≡ false) × Distinct xs

  pub contains-append :
      (xs ys : List A) (x : A)
      → contains (xs ++ ys) x ≡ (if contains xs x then true else contains ys x)
  unfolding contains
  contains-append [] ys x = refl
  contains-append (y ∷ xs) ys x = ground (arith, contains-append xs ys x)

  pub contains-remove :
      (xs : List A) (x y : A) → contains (remove xs x) y ≡ ite (dec y x) false (contains xs y)
  unfolding contains remove
  contains-remove [] x y = ground arith
  contains-remove (z ∷ xs) x y = ground (arith, contains-remove xs x y)

  pub remove_absent : (xs : List A) (x : A) → contains xs x ≡ false → remove xs x ≡ xs
  unfolding contains remove
  remove_absent [] x h = refl
  remove_absent (y ∷ xs) x h = ground (arith, remove_absent xs x)

  pub remove-Distinct : (xs : List A) (x : A) → Distinct xs → Distinct (remove xs x)
  unfolding remove
  remove-Distinct [] x d = tt
  remove-Distinct (y ∷ xs) x d = ground (arith, remove-Distinct xs x d.1, contains-remove xs x y)

  pub length-remove :
      (xs : List A) (x : A)
      → Distinct xs
      → contains xs x ≡ true
      → length (remove xs x) + 1 ≡ length xs
  unfolding contains remove
  length-remove [] x d h = cc
  length-remove (y ∷ xs) x d h =
      ground (arith, length-remove xs x d.1, remove_absent xs x, contains-remove xs x y)

  pub Distinct-snoc :
      (xs : List A) (x : A) → Distinct xs → contains xs x ≡ false → Distinct (xs ++ (x ∷ []))
  unfolding contains
  Distinct-snoc [] x d h = (refl, tt)
  Distinct-snoc (y ∷ xs) x d h =
      ground (arith, Distinct-snoc xs x d.1, contains-append xs (x ∷ []) y)

  -- The first element with each key, in order, of those whose key is not in `seen`.
  unfoldable pub reference {ℓ} : {R : Type ℓ} → (R → A) → List A → List R → List R
  reference key seen [] = []
  reference key seen (r ∷ rs) =
      if contains seen (key r) then reference key seen rs else r ∷ reference key (key r ∷ seen) rs
