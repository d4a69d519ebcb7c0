-- ===== src/Repeats.antt =====
-- What the simulators share (internal/simdevice, internal/simstorefront, internal/deliverystats): a stream with
-- repeats. `picks` are the indices that `rng.Intn` draws, and `swaps` the pairs that `rng.Shuffle` swaps.
pub mod Shuffle
pub mod Keys
pub mod Due
pub mod Laws
use device_telemetry_gateway.Common.{ℕ, zero, suc, List, [], ◌∷◌, ◌++◌, Option, none, some}

module _ {A : Type 0} where
  abbrev pub get_elem? : List A → ℕ → Option A
  get_elem? [] i = none
  get_elem? (x ∷ xs) zero = some x
  get_elem? (x ∷ xs) (suc i) = get_elem? xs i

  abbrev pub set : List A → ℕ → A → List A
  set [] i v = []
  set (x ∷ xs) zero v = v ∷ xs
  set (x ∷ xs) (suc i) v = x ∷ set xs i v

  abbrev pub one_of : Option A → List A
  one_of none = []
  one_of (some x) = x ∷ []

  -- `append(delivered, xs[rng.Intn(len(xs))])` for every draw. No draw lies out of range.
  pub repeats : List A → List ℕ → List A
  repeats xs [] = []
  repeats xs (i ∷ picks) = one_of (get_elem? xs i) ++ repeats xs picks

  swap_found : List A → ℕ → ℕ → Option A → Option A → List A
  swap_found xs i j (some a) (some b) = set (set xs i b) j a
  swap_found xs i j _ _ = xs

  -- `xs[i], xs[j] = xs[j], xs[i]`. No pair lies out of range.
  pub swap : List A → ℕ × ℕ → List A
  unfolding swap_found
  swap xs (i, j) = swap_found xs i j (get_elem? xs i) (get_elem? xs j)

  pub shuffle : List A → List (ℕ × ℕ) → List A
  unfolding swap
  shuffle xs [] = xs
  shuffle xs (s ∷ swaps) = shuffle (swap xs s) swaps

  -- All elements once, the drawn ones again, and then the shuffle.
  unfoldable pub with_repeats : List A → List ℕ → List (ℕ × ℕ) → List A
  unfolding repeats shuffle
  with_repeats xs picks swaps = shuffle (xs ++ repeats xs picks) swaps
