-- ===== src/Commands/Scale.antt =====
-- cmd/deliveryscale: the batches of the bulk load, the comparison of the rollup with a recomputation, and the
-- percentiles. Latencies are whole milliseconds, as the source measures them.
pub mod Loads
pub mod Compare
pub mod Percentile
use Prim.Native.String.{◌++◌ as join}
use device_telemetry_gateway.Common.{
  ℕ, zero, suc, ◌+◌, ◌-◌, ◌*◌, ◌/◌, ◌==◌, ltb, leb, if◌then◌else◌, Bool, true, false, List, [], ◌∷◌,
  ◌++◌, map, Option, none, some, String, String_discrete, lookup, insert, length,
}
use device_telemetry_gateway.Common.Int.{ℤ, pos, negsuc}
use device_telemetry_gateway.Common.Sort.{Order, sort, text_order, number_order}
use device_telemetry_gateway.DeliveryStats.Store.{Pair}

-- The batch with number b: its first row and its size, zero for an empty one.
pub record Load : Type 0 where
  pub total_events : ℕ
  pub batch_size : ℕ

unfoldable pub num_batches : Load → ℕ
num_batches l = (l.total_events + l.batch_size - 1) / l.batch_size

unfoldable pub size_of : Load → ℕ → ℕ
size_of l b =
    let start = b * l.batch_size in
    if ltb l.total_events (start + l.batch_size) then l.total_events - start else l.batch_size

abbrev pub rows_from : ℕ → ℕ → List ℕ
rows_from start zero = []
rows_from start (suc n) = start ∷ rows_from (suc start) n

-- The numbers `idx` of the rows of a batch.
unfoldable pub rows_of : Load → ℕ → List ℕ
unfolding size_of
rows_of l b = rows_from (b * l.batch_size) (size_of l b)

-- The batches that the workers take, from b on: `nextBatch` gives each number once.
unfoldable pub load_from : Load → ℕ → ℕ → List ℕ
unfolding rows_of
load_from l b zero = []
load_from l b (suc n) = rows_of l b ++ load_from l (suc b) n

unfoldable pub bulk_load : Load → List ℕ
unfolding load_from num_batches
bulk_load l = load_from l 0 (num_batches l)

-- The key of a pair in the maps of the comparison.
unfoldable pub pair_key : Pair → String
pair_key q = join q.channel (join "|" q.status)

-- A map filled from the rows of a query.
unfoldable pub fill_map : List (Pair × ℕ) → List (String × ℕ) → List (String × ℕ)
fill_map [] m = m
fill_map ((q, n) ∷ rest) m = fill_map rest (insert String_discrete (pair_key q) n m)

abbrev pub map_of : List (Pair × ℕ) → List (String × ℕ)
map_of rows = fill_map rows []

-- `m[k]`, zero without an entry.
unfoldable pub read_count : List (String × ℕ) → String → ℕ
unfolding lookup String_discrete
read_count m k = elim (lookup String_discrete k m) [ some n ↦ n | none ↦ 0 ]

pub record Report : Type 0 where
  pub exact_pairs : ℕ
  pub total_pairs : ℕ
  pub recompute_total : ℕ
  pub rollup_total : ℕ

-- The loop over the sorted keys of the recomputation.
unfoldable pub compare_keys : List (String × ℕ) → List (String × ℕ) → List String → Report
unfolding read_count
compare_keys recompute rollup [] = record {
  exact_pairs = 0;
  total_pairs = 0;
  recompute_total = 0;
  rollup_total = 0;
}
compare_keys recompute rollup (k ∷ ks) =
    let rest = compare_keys recompute rollup ks in
    let rc = read_count recompute k in
    let rl = read_count rollup k in
    record {
      exact_pairs = if rc == rl then rest.exact_pairs + 1 else rest.exact_pairs;
      total_pairs = rest.total_pairs + 1;
      recompute_total = rc + rest.recompute_total;
      rollup_total = rl + rest.rollup_total;
    }

unfoldable pub compare : List (Pair × ℕ) → List (Pair × ℕ) → Report
unfolding compare_keys fill_map sort
compare recompute rollup =
    let m = map_of recompute in compare_keys m (map_of rollup) (sort text_order (map (λ e. e.0) m))

-- `min` and `max`; an empty slice panics.
unfoldable pub min_from : ℕ → List ℕ → ℕ
min_from m [] = m
min_from m (v ∷ vs) = min_from (if ltb v m then v else m) vs

unfoldable pub max_from : ℕ → List ℕ → ℕ
max_from m [] = m
max_from m (v ∷ vs) = max_from (if ltb m v then v else m) vs

-- `percentile`: `index` is `int(p * float64(n)) - 1` for n values.
unfoldable pub clamp_index : ℤ → ℕ → ℕ
clamp_index (negsuc k) n = if leb n 0 then n - 1 else 0
clamp_index (pos k) n = if leb n k then n - 1 else k

unfoldable pub nth : List ℕ → ℕ → ℕ
nth [] i = 0
nth (v ∷ vs) zero = v
nth (v ∷ vs) (suc i) = nth vs i

unfoldable pub percentile : (ℕ → ℤ) → List ℕ → ℕ
unfolding clamp_index nth sort
percentile index [] = 0
percentile index (v ∷ vs) =
    let n = length (v ∷ vs) in nth (sort number_order (v ∷ vs)) (clamp_index (index n) n)
