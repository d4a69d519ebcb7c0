-- ===== src/Segment/Evaluate.antt =====
-- internal/segment/incremental.go, `EvaluateProfile`: the segments of one profile, from its own state.
-- Times are milliseconds of the Unix epoch.
pub mod Batch
pub mod Frame
use Prim.Native.String.{slice, find, len}
use device_telemetry_gateway.Common.{
  ℕ, zero, suc, ◌+◌, ◌*◌, ltb, leb, if◌then◌else◌, ite, Bool, true, false, not, ◌&&◌, ◌==◌, List,
  [], ◌∷◌, ◌++◌, Option, none, some, String, String_discrete, contains, lookup, insert, length,
  select, reference,
}
use device_telemetry_gateway.Common.Int.{ℤ, pos, floor_div, ◌+ℤ◌, leb_ℤ, ltb_ℤ}
use device_telemetry_gateway.Segment.Floats.{Floats}
use device_telemetry_gateway.Segment.Definitions.{
  Segment, Family, purchase_count_min, cart_abandon_days, category_view_min, purchase_value_min,
  recently_active_hours, never_purchased, churn_risk_days, multi_category_min,
}
use device_telemetry_gateway.Segment.Durations.{days, hours, minus_days, time_sub, nanoseconds}
use device_telemetry_gateway.Segment.ParseInt.{parse_int}
use device_telemetry_gateway.Segment.Redis.{Redis, stats_key, catviews_key, purch_key}

-- `m[k]` of a Go map of strings: the empty text for a missing key.
or_empty : Option String → String
or_empty none = ""
or_empty (some v) = v

unfoldable pub field : List (String × String) → String → String
unfolding or_empty
field m k = or_empty (lookup String_discrete k m)

-- `t.Unix()`.
unfoldable pub unix : ℤ → ℤ
unix t = floor_div t 1000

-- `now.Add(-time.Duration(d) * 24 * time.Hour).Unix()`
pub window_start : ℤ → ℕ → ℤ
unfolding minus_days ◌+ℤ◌
window_start now window_days = floor_div (nanoseconds now +ℤ minus_days window_days) 1_000_000_000

-- The second part of `strings.SplitN(m, "|", 2)`, if there are two.
second_part : String → Option String
second_part m = let i = find m "|" in if ltb (len m) i then none else some (slice m (i + 1) (len m))

-- A failure of one of the reads of `EvaluateProfile`.
pub data ReadFault : Type 0 where
  no_read_fault stats_unread catviews_unread windows_unread : ReadFault

-- `panics` is a missing entry of `countCmds` or `rangeCmds`: the nil pointer it yields is used.
pub data Evaluated : Type 0 where
  matching : List String → Evaluated
  read_error : Evaluated
  panics : Evaluated

-- The variables of `EvaluateProfile`, read from the two hashes.
pub record Numbers : Type 0 where
  pub total_events : ℤ
  pub purchase_count_total : ℤ
  pub last_event_ts : ℤ
  pub last_cart_add_ts : ℤ
  pub last_purchase_ts : ℤ
  pub catviews : List (String × String)

unfoldable pub numbers : List (String × String) → List (String × String) → Numbers
unfolding field parse_int
numbers stats catviews = record {
  total_events = parse_int (field stats "total_events");
  purchase_count_total = parse_int (field stats "purchase_count_total");
  last_event_ts = parse_int (field stats "last_event_ts");
  last_cart_add_ts = parse_int (field stats "last_cartadd_ts");
  last_purchase_ts = parse_int (field stats "last_purchase_ts");
  catviews = catviews;
}

module _ (redis : Redis) (floats : Floats) where
  add_price : floats.Float → Option String → floats.Float
  add_price sum none = sum
  add_price sum (some price) = floats.plus sum (floats.parse price)

  pub purchase_sum : floats.Float → List String → floats.Float
  unfolding second_part add_price
  purchase_sum sum [] = sum
  purchase_sum sum (m ∷ ms) = purchase_sum (add_price sum (second_part m)) ms

  -- `countCmds` and `rangeCmds`, with the results of their commands.
  pub record Windows : Type 0 where
    pub counts : List (String × ℕ)
    pub ranges : List (String × List String)

  abbrev pub count_of : redis.Store → String → ℤ → Segment floats.Float → ℕ
  count_of s p now seg = redis.z_count s (purch_key p) (window_start now seg.window_days) (unix now)

  abbrev pub range_of : redis.Store → String → ℤ → Segment floats.Float → List String
  range_of s p now seg =
      redis.z_range_by_score s (purch_key p) (window_start now seg.window_days) (unix now)

  -- One round of the first loop, by the family of the segment.
  pub queue_read : Family → redis.Store → String → ℤ → Segment floats.Float → Windows → Windows
  queue_read purchase_count_min s p now seg w = record w {
    counts = insert String_discrete seg.id (count_of s p now seg) w.counts;
  }
  queue_read purchase_value_min s p now seg w = record w {
    ranges = insert String_discrete seg.id (range_of s p now seg) w.ranges;
  }
  queue_read _ s p now seg w = w

  pub queue_reads : redis.Store → String → ℤ → List (Segment floats.Float) → Windows → Windows
  unfolding queue_read
  queue_reads s p now [] w = w
  queue_reads s p now (seg ∷ segs) w =
      queue_reads s p now segs (queue_read seg.family s p now seg w)

  pub count_holds : ℕ → Option ℕ → Option Bool
  count_holds min_count none = none
  count_holds min_count (some count) = some (leb min_count count)

  pub value_holds : floats.Float → Option (List String) → Option Bool
  unfolding purchase_sum
  value_holds min_value none = none
  value_holds min_value (some members) =
      some (floats.at_least (purchase_sum (floats.of_ℕ 0) members) min_value)

  -- One round of the second loop: whether the profile belongs to the segment.
  unfoldable pub holds : Family → Segment floats.Float → Windows → Numbers → ℤ → Option Bool
  unfolding count_holds value_holds field parse_int
  holds purchase_count_min seg w n now =
      count_holds seg.min_count (lookup String_discrete seg.id w.counts)
  holds purchase_value_min seg w n now =
      value_holds seg.min_value (lookup String_discrete seg.id w.ranges)
  holds cart_abandon_days seg w n now = some (
      ltb_ℤ (pos 0) n.last_cart_add_ts
      && ltb_ℤ n.last_purchase_ts n.last_cart_add_ts
      && leb_ℤ (days seg.min_days) (time_sub now n.last_cart_add_ts))
  holds category_view_min seg w n now =
      some (leb_ℤ (pos seg.min_count) (parse_int (field n.catviews seg.category)))
  holds recently_active_hours seg w n now =
      some (
        ltb_ℤ (pos 0) n.last_event_ts && leb_ℤ (time_sub now n.last_event_ts) (hours seg.min_hours))
  holds never_purchased seg w n now = some (
      ltb_ℤ (pos 0) n.total_events
      && leb_ℤ n.purchase_count_total (pos 0)
      && leb_ℤ (pos 0) n.purchase_count_total)
  holds churn_risk_days seg w n now = some (
      ltb_ℤ (pos 0) n.purchase_count_total
      && ltb_ℤ (pos 0) n.last_event_ts
      && leb_ℤ (days seg.min_days) (time_sub now n.last_event_ts))
  holds multi_category_min seg w n now = some (leb seg.min_distinct (length n.catviews))

  keep_if : Option Bool → String → Option (List String) → Option (List String)
  keep_if (some true) id (some out) = some (id ∷ out)
  keep_if (some false) id (some out) = some out
  keep_if _ id _ = none

  pub collect : List (Segment floats.Float) → Windows → Numbers → ℤ → Option (List String)
  unfolding holds keep_if
  collect [] w n now = some []
  collect (seg ∷ segs) w n now =
      keep_if (holds seg.family seg w n now) seg.id (collect segs w n now)

  pub evaluated : Option (List String) → Evaluated
  evaluated none = panics
  evaluated (some ids) = matching ids

  no_commands : Windows → Bool
  no_commands w = (length w.counts == 0) && (length w.ranges == 0)

  -- From the `Exec` of the batched reads, which is left out if there is nothing to read.
  pub finish : List (Segment floats.Float) → Windows → Numbers → ℤ → ReadFault → Evaluated
  unfolding collect evaluated no_commands
  finish segments w n now windows_unread =
      if no_commands w then evaluated (collect segments w n now) else read_error
  finish segments w n now _ = evaluated (collect segments w n now)

  pub after_stats :
      List (Segment floats.Float)
      → redis.Store
      → String
      → ℤ
      → ReadFault
      → List (String × String)
      → Evaluated
  unfolding queue_reads numbers finish
  after_stats segments s p now stats_unread stats = read_error
  after_stats segments s p now fault [] = matching []
  after_stats segments s p now catviews_unread (_ ∷ _) = read_error
  after_stats segments s p now fault (e ∷ es) =
      finish segments (queue_reads s p now segments (record { counts = []; ranges = [] }))
        (numbers (e ∷ es) (redis.h_get_all s (catviews_key p))) now fault

  unfoldable pub evaluate_profile :
      List (Segment floats.Float) → redis.Store → String → ℤ → ReadFault → Evaluated
  unfolding after_stats
  evaluate_profile segments s p now fault =
      after_stats segments s p now fault (redis.h_get_all s (stats_key p))
