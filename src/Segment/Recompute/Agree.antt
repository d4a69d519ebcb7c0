-- ===== src/Segment/Recompute/Agree.antt =====
-- The engine against the recomputation: the same events, given to both.
use device_telemetry_gateway.Common.{
  Option, some, ℕ, none, ◌+◌, ◌%◌, ◌^◌, ◌<◌, ◌≤◌, leb, ltb, true, false, ◌&&◌, ◌≡◌, refl, sym, ap,
  ◌∙◌, Bool-cases, inl, inr, List, [], ◌∷◌, map, String, String_discrete, contains, lookup, select,
  tally, length, All, Distinct, arith,
}
use device_telemetry_gateway.Common.Int.{pos, pos_part}
use device_telemetry_gateway.Proto.{StorefrontEvent}
use device_telemetry_gateway.Segment.Floats.{Floats}
use device_telemetry_gateway.Segment.Definitions.{Segment}
use device_telemetry_gateway.Segment.Redis.{Redis, stats_key, catviews_key, touched_profiles}
use device_telemetry_gateway.Segment.ParseInt.{parse_int}
use device_telemetry_gateway.Segment.Evaluate.{field, numbers}
use device_telemetry_gateway.Segment.Evaluate.Batch.{ids, belongs, evaluate_profile-belongs}
use device_telemetry_gateway.Segment.Evaluate.Frame.{current, ids_of, current_unknown}
use device_telemetry_gateway.Segment.Hashes.{Hashes, Known, Tracks, entry, parse_int-entry}
use device_telemetry_gateway.Segment.Hashes.Step.{known_after}
use device_telemetry_gateway.Segment.Incremental.{finalize, apply_event}
use device_telemetry_gateway.Segment.Incremental.Edits.{in_segments}
use device_telemetry_gateway.Segment.Incremental.Membership.{Mirrored, no_faults}
use device_telemetry_gateway.Segment.Incremental.Events.{apply_event-Mirrored, finalize-Finalized}
use device_telemetry_gateway.Segment.Incremental.Applied.{apply_all, apply_all-Tracks}
use device_telemetry_gateway.Segment.Recompute.{
  recompute, ChRow, ch_row, group_of, has_type, wanted, having, query_profile_ids,
}
use device_telemetry_gateway.Segment.Recompute.Groups.{contains-query_profile_ids}
use device_telemetry_gateway.Segment.Recompute.Summary.{
  time, time_if, top, Ascending, Summary, viewed, known_after-Summary,
}
use device_telemetry_gateway.Segment.Recompute.Families.{
  Comparable-quotes_itself, Comparable, Timed, Counted, map-All, top-Timed, tally_le_length,
  family_agrees,
}
use device_telemetry_gateway.Segment.Recompute.Listed.{
  nil_of_length, In, nothing, contains-select, none-entry, group_le_length,
}

module _ (redis : Redis) where
  -- The conditions on the events of a run, for one profile and the time of the comparison.
  pub record Run (s : redis.Store) (evs : List StorefrontEvent) (p : String) (a : ℕ) : Type 0 where
    -- Nothing is known of the profile before.
    pub no_stats : redis.h_get_all s (stats_key p) ≡ []
    pub no_views : redis.h_get_all s (catviews_key p) ≡ []
    pub after_epoch : All (λ (ev : StorefrontEvent). 0 < pos_part ev.timestamp_ms) evs
    pub in_order : Ascending 0 (group_of p (map ch_row evs))
    pub timed : All (Timed a) (group_of p (map ch_row evs))
    pub few : length evs + 1 < 2 ^ 63
    pub early : a < 2 ^ 63

module _ (redis : Redis) (hashes : Hashes redis) (floats : Floats)
    (to_float_or_zero : String → floats.Float) (segments : List (Segment floats.Float)) where
  module _ (s : redis.Store) (evs : List StorefrontEvent) (p : String) (a : ℕ)
      (d : Distinct String_discrete (ids segments)) (run : Run redis s evs p a) where
    abbrev after : redis.Store
    after = apply_all redis floats segments s evs

    abbrev rows : List ChRow
    rows = group_of p (map ch_row evs)

    abbrev known : Known
    known = known_after p evs nothing

    tracked : Tracks redis after p known
    unfolding lookup
    tracked =
        apply_all-Tracks redis hashes floats segments s evs p 0 nothing d run.after_epoch
          (record { events = omega arith; purchases = omega arith; views = λ c h. omega arith })
          (let few = run.few in omega arith)
          (record { stats = λ f. rw (run.no_stats) refl; views = λ c. rw (run.no_views) refl })

    summary : Summary nothing rows known
    summary =
        known_after-Summary p evs nothing run.in_order
          (record { cart = omega arith; bought = omega arith })

    times : (t : String) → (top time rows ≤ a) × (top (time_if t) rows ≤ a)
    times t =
        let last = top-Timed a time rows (
          map-All (Timed a) (λ r. (time r ≤ a) × (time r % 1000 ≤ a % 1000)) rows
            (λ r (_, le, m). (le, m)) run.timed) in
        let typed = top-Timed a (time_if t) rows (
          map-All (Timed a) (λ r. (time_if t r ≤ a) × (time_if t r % 1000 ≤ a % 1000)) rows
            (λ r h. ground arith) run.timed) in
        (last.0, typed.0)

    read :
        (f : String) (n : ℕ)
        → known.stats f ≡ n
        → n < 2 ^ 63
        → parse_int (field (redis.h_get_all after (stats_key p)) f) ≡ pos n
    read f n e small =
        parse_int-entry (redis.h_get_all after (stats_key p)) f n (tracked.stats f ∙ ap entry e)
          small

    counted :
        Counted rows
          (numbers (redis.h_get_all after (stats_key p)) (redis.h_get_all after (catviews_key p)))
    unfolding numbers
    counted =
        let early = run.early in
        let few = run.few in
        let size = group_le_length p evs in
        let carts = times "add_to_cart" in
        let purchases = times "purchase" in
        let bought = tally_le_length (has_type "purchase") rows in
        record {
          events = read "total_events" (length rows) (omega (arith, summary.events)) (omega arith);
          purchases =
              read "purchase_count_total" (tally (has_type "purchase") rows)
                (omega (arith, summary.purchases)) (omega arith);
          last = read "last_event_ts" (top time rows) (ground (arith, summary.last)) (omega arith);
          cart =
              read "last_cartadd_ts" (top (time_if "add_to_cart") rows)
                (ground (arith, summary.cart)) (omega arith);
          bought =
              read "last_purchase_ts" (top (time_if "purchase") rows)
                (ground (arith, summary.bought)) (omega arith);
          views = λ c named.
              let few_views = tally_le_length (viewed c) rows in
              parse_int-entry (redis.h_get_all after (catviews_key p)) c (tally (viewed c) rows)
                (tracked.views c ∙ ap entry (omega (arith, summary.views c named))) (omega arith);
        }

    no_rows : redis.h_get_all after (stats_key p) ≡ [] → length rows ≡ 0
    unfolding lookup
    no_rows unknown =
        let missing : lookup String_discrete "total_events" (redis.h_get_all after (stats_key p))
            ≡ none =
          rw unknown refl in
        let zero_events =
          none-entry (known.stats "total_events") (sym missing ∙ tracked.stats "total_events") in
        omega (arith, summary.events)

    none_selected :
        (seg : Segment floats.Float)
        → redis.h_get_all after (stats_key p) ≡ []
        → let mine = select (wanted floats to_float_or_zero seg.family seg (pos a)) rows in
          contains String_discrete [] seg.id
          ≡ leb 1 (length mine) && having floats to_float_or_zero seg.family seg (pos a) mine
    unfolding contains
    none_selected seg unknown = rw (nil_of_length rows (no_rows unknown)) refl

    -- The engine's answer for a segment of its own list.
    pub current-query_profile_ids :
        (seg : Segment floats.Float)
        → In seg segments
        → Comparable seg.family seg
        → contains String_discrete (current redis floats segments after p (pos a)) seg.id
          ≡ contains String_discrete
              (query_profile_ids floats to_float_or_zero (map ch_row evs) seg (pos a))
              p
    current-query_profile_ids seg inside comparable =
        let stats = redis.h_get_all after (stats_key p) in
        let n = numbers stats (redis.h_get_all after (catviews_key p)) in
        let log = map ch_row evs in
        let mine = select (wanted floats to_float_or_zero seg.family seg (pos a)) rows in
        let query = contains-query_profile_ids floats to_float_or_zero log seg (pos a) p in
        let same_test =
          family_agrees redis floats to_float_or_zero after p a rows n seg seg.family comparable
            run.timed counted in
        elim (Bool-cases (ltb 0 (length stats))) [
          | inl yes_ ↦
              let found =
                evaluate_profile-belongs redis floats after p (pos a) segments d (ground arith) in
              ap (λ e. contains String_discrete (ids_of e) seg.id) found
              ∙ contains-select
                  (λ (x : Segment floats.Float). belongs redis floats after p (pos a) x.family x n)
                  seg segments d inside
              ∙ same_test
              ∙ sym query
          | inr no_ ↦
              let unknown = nil_of_length stats (ground arith) in
              ap (λ found. contains String_discrete found seg.id)
                (current_unknown redis floats segments after p (pos a) unknown)
              ∙ none_selected seg unknown
              ∙ sym query
        ]

  pub apply_all-Mirrored :
      (s : redis.Store) (evs : List StorefrontEvent)
      → Distinct String_discrete (ids segments)
      → Mirrored redis s
      → Mirrored redis (apply_all redis floats segments s evs)
  unfolding apply_all
  apply_all-Mirrored s [] d mirrored = mirrored
  apply_all-Mirrored s (ev ∷ evs) d mirrored =
      apply_all-Mirrored (apply_event redis floats segments s ev none no_faults).0 evs d
        (apply_event-Mirrored redis floats segments s ev d mirrored).2

  -- Without faults, the events of a run applied one by one and then the final pass leave a touched profile in
  -- exactly those segments, of the five families on counters and single times, in which the recomputation from
  -- the log of the same events finds it. `Run` and `Comparable` name the conditions on times, counts and
  -- thresholds; among them, a segment's days and hours are below 2^63 nanoseconds, and its category has
  -- neither a quote nor a backslash, so that `Recompute` sends the intended query.
  pub finalize-recompute :
      (s : redis.Store) (evs : List StorefrontEvent) (p : String) (a : ℕ)
      (seg : Segment floats.Float) (other : Option (List String))
      → Distinct String_discrete (ids segments)
      → Mirrored redis s
      → Run redis s evs p a
      → In seg segments
      → Comparable seg.family seg
      → let after = apply_all redis floats segments s evs in
        contains String_discrete (redis.s_members after touched_profiles) p ≡ true
        → let found = query_profile_ids floats to_float_or_zero (map ch_row evs) seg (pos a) in
          (recompute floats to_float_or_zero (map ch_row evs) seg (pos a) false other ≡ some found)
          × (in_segments redis
                (finalize redis floats segments after (pos a) false (λ q. no_faults)).0
                p
                seg.id
              ≡ contains String_discrete found p)
  unfolding recompute
  finalize-recompute s evs p a seg other d mirrored run inside comparable touched =
      let after = apply_all redis floats segments s evs in
      let done =
        (finalize-Finalized redis floats segments after (pos a) d
          (apply_all-Mirrored s evs d mirrored)).2 in
      (
        rw (Comparable-quotes_itself seg.family seg comparable) refl,
        done.sets p seg.id
            ∙ rw (touched, done.answers p)
                (current-query_profile_ids s evs p a d run seg inside comparable),
      )
