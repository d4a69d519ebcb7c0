-- ===== src/Segment/Evaluate/Batch.antt =====
-- The batched reads of `EvaluateProfile` against one read for each segment.
use device_telemetry_gateway.Common.{
  ◌<◌, leb, ◌≢◌, length, ◌≡◌, refl, ◌∙◌, Bool, false, ◌&&◌, List, [], ◌∷◌, some, String,
  String_discrete, contains, lookup, lookup-insert_ne, lookup-insert_self, Distinct, All, select,
  map, arith, Bool-cases, inl, inr,
}
use device_telemetry_gateway.Common.Int.{ℤ, pos, leb_ℤ, ltb_ℤ}
use device_telemetry_gateway.Segment.Floats.{Floats}
use device_telemetry_gateway.Segment.Definitions.{
  Segment, Family, purchase_count_min, cart_abandon_days, category_view_min, purchase_value_min,
  recently_active_hours, never_purchased, churn_risk_days, multi_category_min,
}
use device_telemetry_gateway.Segment.Redis.{Redis, stats_key, catviews_key}
use device_telemetry_gateway.Segment.ParseInt.{parse_int}
use device_telemetry_gateway.Segment.Durations.{days, hours, time_sub}
use device_telemetry_gateway.Segment.Evaluate.{
  field, Windows, Numbers, numbers, count_of, range_of, queue_read, queue_reads, purchase_sum,
  count_holds, value_holds, after_stats, finish, holds, collect, evaluated, no_read_fault, matching,
  evaluate_profile,
}

abbrev pub ids : {F : Type 0} → List (Segment F) → List String
ids = map (λ seg. seg.id)

module _ (redis : Redis) (floats : Floats) (s : redis.Store) (p : String) (now : ℤ) where
  -- Whether the profile belongs to the segment, family by family, with one read of the purchases for each of
  -- the two families with a window. Nothing of the engine's two loops is used.
  unfoldable pub belongs : Family → Segment floats.Float → Numbers → Bool
  unfolding purchase_sum parse_int field
  belongs purchase_count_min seg n = leb seg.min_count (count_of redis floats s p now seg)
  belongs purchase_value_min seg n =
      floats.at_least
        (purchase_sum redis floats (floats.of_ℕ 0) (range_of redis floats s p now seg))
        seg.min_value
  belongs cart_abandon_days seg n =
      ltb_ℤ (pos 0) n.last_cart_add_ts
      && ltb_ℤ n.last_purchase_ts n.last_cart_add_ts
      && leb_ℤ (days seg.min_days) (time_sub now n.last_cart_add_ts)
  belongs category_view_min seg n =
      leb_ℤ (pos seg.min_count) (parse_int (field n.catviews seg.category))
  belongs recently_active_hours seg n =
      ltb_ℤ (pos 0) n.last_event_ts && leb_ℤ (time_sub now n.last_event_ts) (hours seg.min_hours)
  belongs never_purchased seg n =
      ltb_ℤ (pos 0) n.total_events
      && leb_ℤ n.purchase_count_total (pos 0)
      && leb_ℤ (pos 0) n.purchase_count_total
  belongs churn_risk_days seg n =
      ltb_ℤ (pos 0) n.purchase_count_total
      && ltb_ℤ (pos 0) n.last_event_ts
      && leb_ℤ (days seg.min_days) (time_sub now n.last_event_ts)
  belongs multi_category_min seg n = leb seg.min_distinct (length n.catviews)

  -- The two maps answer alike for an id.
  abbrev SameAt : String → Windows redis floats → Windows redis floats → Type 0
  SameAt id v w =
      (lookup String_discrete id v.counts ≡ lookup String_discrete id w.counts)
      × (lookup String_discrete id v.ranges ≡ lookup String_discrete id w.ranges)

  queue_read_keeps :
      (family : Family) (seg : Segment floats.Float) (id : String) (w : Windows redis floats)
      → id ≢ seg.id
      → SameAt id (queue_read redis floats family s p now seg w) w
  unfolding queue_read
  queue_read_keeps purchase_count_min seg id w h =
      (lookup-insert_ne String_discrete seg.id id _ w.counts h, refl)
  queue_read_keeps purchase_value_min seg id w h =
      (refl, lookup-insert_ne String_discrete seg.id id _ w.ranges h)
  queue_read_keeps cart_abandon_days seg id w h = (refl, refl)
  queue_read_keeps category_view_min seg id w h = (refl, refl)
  queue_read_keeps recently_active_hours seg id w h = (refl, refl)
  queue_read_keeps never_purchased seg id w h = (refl, refl)
  queue_read_keeps churn_risk_days seg id w h = (refl, refl)
  queue_read_keeps multi_category_min seg id w h = (refl, refl)

  queue_reads_keeps :
      (segs : List (Segment floats.Float)) (id : String) (w : Windows redis floats)
      → contains String_discrete (ids segs) id ≡ false
      → SameAt id (queue_reads redis floats s p now segs w) w
  unfolding queue_reads contains
  queue_reads_keeps [] id w h = (refl, refl)
  queue_reads_keeps (seg ∷ segs) id w h =
      let w' = queue_read redis floats seg.family s p now seg w in
      let (counts', ranges') = queue_reads_keeps segs id w' (ground arith) in
      let (counts, ranges) = queue_read_keeps seg.family seg id w (λ e. ground arith) in
      (counts' ∙ counts, ranges' ∙ ranges)

  holds_same :
      (family : Family) (seg : Segment floats.Float) (v w : Windows redis floats) (n : Numbers)
      → SameAt seg.id v w
      → holds redis floats family seg v n now ≡ holds redis floats family seg w n now
  unfolding holds
  holds_same purchase_count_min seg v w n h = rw (h.0)
  holds_same purchase_value_min seg v w n h = rw (h.1)
  holds_same cart_abandon_days seg v w n h = refl
  holds_same category_view_min seg v w n h = refl
  holds_same recently_active_hours seg v w n h = refl
  holds_same never_purchased seg v w n h = refl
  holds_same churn_risk_days seg v w n h = refl
  holds_same multi_category_min seg v w n h = refl

  holds-queue_read :
      (family : Family) (seg : Segment floats.Float) (w : Windows redis floats) (n : Numbers)
      → holds redis floats family seg (queue_read redis floats family s p now seg w) n now
        ≡ some (belongs family seg n)
  unfolding holds queue_read belongs count_holds value_holds
  holds-queue_read purchase_count_min seg w n =
      rw (lookup-insert_self String_discrete seg.id (count_of redis floats s p now seg) w.counts)
  holds-queue_read purchase_value_min seg w n =
      rw (lookup-insert_self String_discrete seg.id (range_of redis floats s p now seg) w.ranges)
  holds-queue_read cart_abandon_days seg w n = refl
  holds-queue_read category_view_min seg w n = refl
  holds-queue_read recently_active_hours seg w n = refl
  holds-queue_read never_purchased seg w n = refl
  holds-queue_read churn_risk_days seg w n = refl
  holds-queue_read multi_category_min seg w n = refl

  -- Every test finds its reads after the first loop.
  abbrev Ready : Windows redis floats → Segment floats.Float → Type 0
  Ready w seg =
      (n : Numbers) → holds redis floats seg.family seg w n now ≡ some (belongs seg.family seg n)

  queue_reads-Ready :
      (segs : List (Segment floats.Float)) (w : Windows redis floats)
      → Distinct String_discrete (ids segs)
      → All (Ready (queue_reads redis floats s p now segs w)) segs
  unfolding queue_reads
  queue_reads-Ready [] w d = tt
  queue_reads-Ready (seg ∷ segs) w d =
      let w' = queue_read redis floats seg.family s p now seg w in
      (
        λ n.
            holds_same seg.family seg (queue_reads redis floats s p now segs w') w' n
              (queue_reads_keeps segs seg.id w' d.0)
            ∙ holds-queue_read seg.family seg w n,
        queue_reads-Ready segs w' d.1,
      )

  collect-Ready :
      (segs : List (Segment floats.Float)) (w : Windows redis floats) (n : Numbers)
      → All (Ready w) segs
      → collect redis floats segs w n now
        ≡ some (ids (select (λ seg. belongs seg.family seg n) segs))
  unfolding collect
  collect-Ready [] w n ready = refl
  collect-Ready (seg ∷ segs) w n ready = elim (Bool-cases (belongs seg.family seg n)) [
    | inl yes_ ↦ rw (ready.0 n, collect-Ready segs w n ready.1, yes_)
    | inr no_ ↦ rw (ready.0 n, collect-Ready segs w n ready.1, no_)
  ]

  pub evaluate_profile-belongs :
      (segments : List (Segment floats.Float))
      → Distinct String_discrete (ids segments)
      → 0 < length (redis.h_get_all s (stats_key p))
      → let n = numbers (redis.h_get_all s (stats_key p)) (redis.h_get_all s (catviews_key p)) in
        evaluate_profile redis floats segments s p now no_read_fault
        ≡ matching (ids (select (λ seg. belongs seg.family seg n) segments))
  unfolding evaluate_profile after_stats finish evaluated
  evaluate_profile-belongs segments d h = stored (redis.h_get_all s (stats_key p)) h
    where
      stored :
          (stats : List (String × String))
          → 0 < length stats
          → let n = numbers stats (redis.h_get_all s (catviews_key p)) in
            after_stats redis floats segments s p now no_read_fault stats
            ≡ matching (ids (select (λ seg. belongs seg.family seg n) segments))
      stored [] h = absurd (omega arith)
      stored (e ∷ es) h =
          let w : Windows redis floats = record { counts = []; ranges = [] } in
          rw (
            collect-Ready segments (queue_reads redis floats s p now segments w)
              (numbers (e ∷ es) (redis.h_get_all s (catviews_key p)))
              (queue_reads-Ready segments w d))
