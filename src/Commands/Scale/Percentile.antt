-- ===== src/Commands/Scale/Percentile.antt =====
-- The percentile against the smallest and the largest value.
use device_telemetry_gateway.Common.{
  ℕ, zero, suc, ◌≤◌, ◌<◌, ◌≡◌, refl, ltb, if◌then◌else◌, true, List, [], ◌∷◌, length, All, tally,
  arith,
}
use device_telemetry_gateway.Common.Int.{ℤ, pos, negsuc}
use device_telemetry_gateway.Common.Sort.{sort, sort-All, sort-SameItems, number_order}
use device_telemetry_gateway.Commands.Scale.{min_from, max_from, clamp_index, nth, percentile}

min_from-le : (m : ℕ) (vs : List ℕ) → (min_from m vs ≤ m) × All (λ v. min_from m vs ≤ v) vs
unfolding min_from
min_from-le m [] = (omega arith, tt)
min_from-le m (v ∷ vs) =
    let next = if ltb v m then v else m in
    let (least, all) = min_from-le next vs in
    let below_m : next ≤ m = ground arith in
    let below_v : next ≤ v = ground arith in (omega arith, (omega arith, all))

le-max_from : (m : ℕ) (vs : List ℕ) → (m ≤ max_from m vs) × All (λ v. v ≤ max_from m vs) vs
unfolding max_from
le-max_from m [] = (omega arith, tt)
le-max_from m (v ∷ vs) =
    let next = if ltb m v then v else m in
    let (most, all) = le-max_from next vs in
    let above_m : m ≤ next = ground arith in
    let above_v : v ≤ next = ground arith in (omega arith, (omega arith, all))

clamp_index-lt : (i : ℤ) (n : ℕ) → 0 < n → clamp_index i n < n
unfolding clamp_index
clamp_index-lt (pos k) n h = ground arith
clamp_index-lt (negsuc k) n h = ground arith

nth-All : (P : ℕ → Type 0) (vs : List ℕ) (i : ℕ) → All P vs → i < length vs → P (nth vs i)
unfolding nth
nth-All P [] i h lt = absurd (omega arith)
nth-All P (v ∷ vs) zero h lt = h.0
nth-All P (v ∷ vs) (suc i) h lt = nth-All P vs i h.1 (omega arith)

length-tally : {A : Type 0} (xs : List A) → tally (λ x. true) xs ≡ length xs
length-tally [] = refl
length-tally (x ∷ xs) = omega (arith, length-tally xs)

length-sort : (vs : List ℕ) → length (sort number_order vs) ≡ length vs
length-sort vs = omega (
  arith,
  length-tally vs,
  length-tally (sort number_order vs),
  sort-SameItems number_order vs (λ x. true),
)

-- Whatever index the floating-point product gives, also one out of range: the percentile of at least one latency
-- lies between the smallest and the largest one.
pub percentile_bounds :
    (index : ℕ → ℤ) (v : ℕ) (vs : List ℕ)
    → (min_from v (v ∷ vs) ≤ percentile index (v ∷ vs))
      × (percentile index (v ∷ vs) ≤ max_from v (v ∷ vs))
unfolding percentile
percentile_bounds index v vs = (
  found (λ x. min_from v (v ∷ vs) ≤ x) (min_from-le v (v ∷ vs)).1,
  found (λ x. x ≤ max_from v (v ∷ vs)) (le-max_from v (v ∷ vs)).1,
)
  where
    found : (P : ℕ → Type 0) → All P (v ∷ vs) → P (percentile index (v ∷ vs))
    found P h =
        let n = length (v ∷ vs) in
        nth-All P (sort number_order (v ∷ vs)) (clamp_index (index n) n)
          (sort-All number_order P (v ∷ vs) h)
          (omega (arith, clamp_index-lt (index n) n, length-sort (v ∷ vs)))
