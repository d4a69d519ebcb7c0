-- ===== src/DeliveryStats/Store/Dashboard.antt =====
-- internal/deliverystats/clickhouse.go: the two dashboard queries and the row counts. A window starts at a time in
-- milliseconds; the second query cuts it to whole seconds, in which the column `minute` is kept.
use device_telemetry_gateway.Common.{
  ℕ, ◌+◌, ◌-◌, ◌*◌, ite, if◌then◌else◌, List, [], ◌∷◌, map, select, String, String_discrete,
  contains, length,
}
use device_telemetry_gateway.Common.Int.{ℤ, pos, negsuc, floor_div, leb_ℤ}
use device_telemetry_gateway.DeliveryStats.Store.{
  RollupKey, RollupKey_discrete, group_by, rollup_key, Tables,
}

abbrev pub times : ℕ → ℤ → ℤ
times n (pos a) = pos (n * a)
times n (negsuc a) = negsuc (n * a + n - 1)

-- `uniqExact`: the distinct texts of each group.
unfoldable pub add_to_set : String → List String → List String
unfolding contains String_discrete
add_to_set x xs = if contains String_discrete xs x then xs else x ∷ xs

module _ {K : Type 0} (dec : Discrete K) where
  unfoldable pub add_id : K → String → List (K × List String) → List (K × List String)
  unfolding add_to_set
  add_id k x [] = (k, x ∷ []) ∷ []
  add_id k x ((j, ids) ∷ rest) =
      ite (dec k j) ((j, add_to_set x ids) ∷ rest) ((j, ids) ∷ add_id k x rest)

  unfoldable pub group_ids : {R : Type 0} → (R → K) → (R → String) → List R → List (K × List String)
  unfolding add_id
  group_ids key id [] = []
  group_ids key id (r ∷ rs) = add_id (key r) (id r) (group_ids key id rs)

unfoldable pub uniq_exact : {K : Type 0} → List (K × List String) → List (K × ℕ)
uniq_exact groups = map (λ g. (g.0, length g.1)) groups

unfoldable pub dashboard_raw_query : Tables → ℤ → List (RollupKey × ℕ)
unfolding group_ids uniq_exact rollup_key RollupKey_discrete
dashboard_raw_query t start = uniq_exact (
    group_ids RollupKey_discrete rollup_key (λ w. w.webhook_id)
      (select (λ w. leb_ℤ start w.timestamp_ms) t.events))

unfoldable pub dashboard_rollup_query : Tables → ℤ → List (RollupKey × ℕ)
unfolding group_by RollupKey_discrete
dashboard_rollup_query t start =
    group_by RollupKey_discrete (λ e. e.0) (λ e. e.1)
      (select (λ e. leb_ℤ (floor_div start 1000) (times 60 e.0.minute)) t.rollup)

pub count_rows : Tables → ℕ
count_rows t = length t.events

pub count_rollup_rows : Tables → ℕ
count_rollup_rows t = length t.rollup
