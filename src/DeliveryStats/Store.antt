-- ===== src/DeliveryStats/Store.antt =====
-- internal/deliverystats/clickhouse.go: the event log, the rollup table and the queries on them. A query is
-- what its SQL says on a table as a list of rows; what becomes of a request to ClickHouse is an argument.
-- ORDER BY is left out: the rows of an answer stand in no particular order.
pub mod Laws
pub mod Dashboard
pub mod Windows
use device_telemetry_gateway.Common.{
  ℕ, suc, ◌+◌, ite, if◌then◌else◌, Bool, true, false, List, [], ◌∷◌, ◌++◌, map, select, String,
  String_discrete, ℕ_discrete,
}
use device_telemetry_gateway.Common.Int.{ℤ, floor_div, leb_ℤ}
use device_telemetry_gateway.Proto.{DeliveryWebhook}

-- A pair of a channel and a status, and the key of a row of the rollup.
pub record Pair : Type 0 where
  pub channel : String
  pub status : String

pub record RollupKey : Type 0 where
  pub minute : ℤ
  pub pair : Pair

unfoldable pub Pair_discrete : Discrete Pair
unfolding String_discrete
Pair_discrete = hlevel String_discrete

pub RollupKey_discrete : Discrete RollupKey
unfolding String_discrete
RollupKey_discrete = hlevel (String_discrete, ℕ_discrete)

-- GROUP BY: the rows of an answer with their sums, and one more row of the input.
module _ {K : Type 0} (dec : Discrete K) where
  pub add_to_group : K → ℕ → List (K × ℕ) → List (K × ℕ)
  add_to_group k n [] = (k, n) ∷ []
  add_to_group k n ((j, m) ∷ rest) =
      ite (dec k j) ((j, n + m) ∷ rest) ((j, m) ∷ add_to_group k n rest)

  pub group_by : {R : Type 0} → (R → K) → (R → ℕ) → List R → List (K × ℕ)
  unfolding add_to_group
  group_by key weight [] = []
  group_by key weight (r ∷ rs) = add_to_group (key r) (weight r) (group_by key weight rs)

-- `toStartOfMinute`, in milliseconds of the Unix epoch.
pub minute_of : ℤ → ℤ
minute_of t = floor_div t 60000

abbrev pub pair_of : DeliveryWebhook → Pair
pair_of w = record { channel = w.channel; status = w.status }

pub rollup_key : DeliveryWebhook → RollupKey
unfolding minute_of
rollup_key w = record { minute = minute_of w.timestamp_ms; pair = pair_of w }

-- The tables `delivery_events` and `delivery_rollup_minute`; a row of the second is a key and its
-- event_count.
pub record Tables : Type 0 where
  pub events : List DeliveryWebhook
  pub rollup : List (RollupKey × ℕ)

-- A request runs, or it fails (a timeout, a status that is not 200) at any point: ClickHouse works row block
-- by row block, so any part of its rows may be done. The predicate marks rows by their position.
pub data Sent : Type 0 where
  runs : Sent
  fails : (ℕ → Bool) → Sent

abbrev pub is_ok : Sent → Bool
is_ok runs = true
is_ok (fails which) = false

abbrev pub marked {ℓ} : {A : Type ℓ} → (ℕ → Bool) → List A → List A
marked which [] = []
marked which (x ∷ xs) =
    let rest = marked (λ n. which (suc n)) xs in if which 0 then x ∷ rest else rest

-- The rows of an INSERT that get into the table, and those of the table that a TRUNCATE leaves.
abbrev pub inserted {ℓ} : {A : Type ℓ} → Sent → List A → List A
inserted runs rows = rows
inserted (fails which) rows = marked which rows

abbrev pub left_by {ℓ} : {A : Type ℓ} → Sent → List A → List A
left_by runs rows = []
left_by (fails which) rows = marked which rows

-- `raw` on a statement that changes the tables so; the result is whether there is no error.
pub raw : Sent → Tables → Tables × Bool
raw sent changed = (changed, is_ok sent)

-- Two statements, the second only if the first had no error.
pub and_then : Tables × Bool → (Tables → Tables × Bool) → Tables × Bool
and_then (t, true) next = next t
and_then (t, false) next = (t, false)

truncate_rollup : Sent → Tables → Tables × Bool
unfolding raw
truncate_rollup sent t = raw sent (record t { rollup = left_by sent t.rollup })

pub truncate_all : Tables → Sent → Sent → Tables × Bool
unfolding raw and_then truncate_rollup
truncate_all t first second =
    and_then (raw first (record t { events = left_by first t.events }))
      (λ t'. truncate_rollup second t')

pub insert_batch : Tables → List DeliveryWebhook → Sent → Tables × Bool
unfolding raw
insert_batch t [] sent = (t, true)
insert_batch t (w ∷ ws) sent = raw sent (record t { events = t.events ++ inserted sent (w ∷ ws) })

-- `RefreshRollup`: TRUNCATE, then INSERT of the SELECT.
unfoldable pub refresh_rollup : Tables → Sent → Sent → Tables × Bool
unfolding truncate_rollup and_then raw group_by
refresh_rollup t first second = and_then (truncate_rollup first t) (λ t'. raw second (record t' {
  rollup = t'.rollup ++ inserted second (group_by RollupKey_discrete rollup_key (λ w. 1) t'.events);
}))

unfoldable pub recompute_channel_status_counts : Tables → List (Pair × ℕ)
unfolding group_by
recompute_channel_status_counts t = group_by Pair_discrete pair_of (λ w. 1) t.events

-- Also the rows of `Summary`.
pub rollup_channel_status_counts : Tables → List (Pair × ℕ)
unfolding group_by
rollup_channel_status_counts t = group_by Pair_discrete (λ e. e.0.pair) (λ e. e.1) t.rollup
