-- ===== src/Segment/Evaluate/Frame.antt =====
-- The state that `EvaluateProfile` reads: a command on another key does not change its answer.
use device_telemetry_gateway.Common.{
  ◌≡◌, ◌≢◌, refl, ◌∙◌, sym, ap, List, [], ◌∷◌, String, String_discrete, Distinct, arith,
}
use device_telemetry_gateway.Common.Int.{ℤ}
use device_telemetry_gateway.Segment.Floats.{Floats}
use device_telemetry_gateway.Segment.Definitions.{
  Segment, Family, purchase_count_min, cart_abandon_days, category_view_min, purchase_value_min,
  recently_active_hours, never_purchased, churn_risk_days, multi_category_min,
}
use device_telemetry_gateway.Segment.Redis.{
  Redis, Command, stats_key, catviews_key, purch_key, key_of,
}
use device_telemetry_gateway.Segment.Evaluate.{
  Windows, Evaluated, matching, read_error, panics, evaluate_profile, after_stats, no_read_fault,
  queue_read, queue_reads, window_start, unix,
}
use device_telemetry_gateway.Segment.Evaluate.Batch.{ids, evaluate_profile-belongs}

-- The ids that `EvaluateProfile` answers.
abbrev pub ids_of : Evaluated → List String
ids_of (matching found) = found
ids_of read_error = []
ids_of panics = []

module _ (redis : Redis) (floats : Floats) (segments : List (Segment floats.Float)) where
  queue_read-run :
      (c : Command) (s : redis.Store) (p : String) (now : ℤ) (family : Family)
      (seg : Segment floats.Float) (w : Windows redis floats)
      → key_of c ≢ purch_key p
      → queue_read redis floats family (redis.run c s) p now seg w
        ≡ queue_read redis floats family s p now seg w
  unfolding queue_read
  queue_read-run c s p now purchase_count_min seg w h =
      rw (redis.z_count_elsewhere c s (purch_key p) (window_start now seg.window_days) (unix now) h)
  queue_read-run c s p now purchase_value_min seg w h =
      rw (redis.z_range_elsewhere c s (purch_key p) (window_start now seg.window_days) (unix now) h)
  queue_read-run c s p now cart_abandon_days seg w h = refl
  queue_read-run c s p now category_view_min seg w h = refl
  queue_read-run c s p now recently_active_hours seg w h = refl
  queue_read-run c s p now never_purchased seg w h = refl
  queue_read-run c s p now churn_risk_days seg w h = refl
  queue_read-run c s p now multi_category_min seg w h = refl

  queue_reads-run :
      (c : Command) (s : redis.Store) (p : String) (now : ℤ) (segs : List (Segment floats.Float))
      (w : Windows redis floats)
      → key_of c ≢ purch_key p
      → queue_reads redis floats (redis.run c s) p now segs w
        ≡ queue_reads redis floats s p now segs w
  unfolding queue_reads
  queue_reads-run c s p now [] w h = refl
  queue_reads-run c s p now (seg ∷ segs) w h =
      rw (queue_read-run c s p now seg.family seg w h) (queue_reads-run c s p now segs _ h)

  after_stats-run :
      (c : Command) (s : redis.Store) (p : String) (now : ℤ) (stats : List (String × String))
      → key_of c ≢ catviews_key p
      → key_of c ≢ purch_key p
      → after_stats redis floats segments (redis.run c s) p now no_read_fault stats
        ≡ after_stats redis floats segments s p now no_read_fault stats
  unfolding after_stats
  after_stats-run c s p now [] h g = refl
  after_stats-run c s p now (e ∷ es) h g = rw (
    queue_reads-run c s p now segments (record { counts = []; ranges = [] }) g,
    redis.h_get_all_elsewhere c s (catviews_key p) h,
  )

  pub evaluate_profile-run :
      (c : Command) (s : redis.Store) (p : String) (now : ℤ)
      → key_of c ≢ stats_key p
      → key_of c ≢ catviews_key p
      → key_of c ≢ purch_key p
      → evaluate_profile redis floats segments (redis.run c s) p now no_read_fault
        ≡ evaluate_profile redis floats segments s p now no_read_fault
  unfolding evaluate_profile
  evaluate_profile-run c s p now f h g =
      rw (redis.h_get_all_elsewhere c s (stats_key p) f)
        (after_stats-run c s p now (redis.h_get_all s (stats_key p)) h g)

  abbrev pub current : redis.Store → String → ℤ → List String
  current s p now = ids_of (evaluate_profile redis floats segments s p now no_read_fault)

  -- With different ids it always answers.
  pub evaluate_profile_answers :
      (s : redis.Store) (p : String) (now : ℤ)
      → Distinct String_discrete (ids segments)
      → evaluate_profile redis floats segments s p now no_read_fault ≡ matching (current s p now)
  unfolding evaluate_profile after_stats
  evaluate_profile_answers s p now d = from_stats (redis.h_get_all s (stats_key p)) refl
    where
      from_stats :
          (stats : List (String × String))
          → redis.h_get_all s (stats_key p) ≡ stats
          → evaluate_profile redis floats segments s p now no_read_fault
            ≡ matching (current s p now)
      from_stats [] e = rw e
      from_stats (x ∷ xs) e =
          let answer =
            evaluate_profile-belongs redis floats s p now segments d (rw e (omega arith)) in
          answer ∙ ap (λ a. matching (ids_of a)) (sym answer)

  -- Nothing is answered for a profile without a hash.
  pub current_unknown :
      (s : redis.Store) (p : String) (now : ℤ)
      → redis.h_get_all s (stats_key p) ≡ []
      → current s p now ≡ []
  unfolding evaluate_profile after_stats
  current_unknown s p now e = rw e refl
