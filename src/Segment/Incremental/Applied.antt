-- ===== src/Segment/Incremental/Applied.antt =====
-- The counters and times in Redis after whole calls of the engine.
use device_telemetry_gateway.Common.{
  ℕ, ◌+◌, ◌^◌, ◌<◌, ◌≡◌, subst, ap, true, ite, if_pos, if_neg, List, [], ◌∷◌, none, Distinct,
  length, String, String_discrete, All, arith,
}
use device_telemetry_gateway.Common.Int.{pos_part}
use device_telemetry_gateway.Proto.{StorefrontEvent}
use device_telemetry_gateway.Segment.Floats.{Floats}
use device_telemetry_gateway.Segment.Definitions.{Segment}
use device_telemetry_gateway.Segment.Redis.{Redis, Command, key_of, segments_key, run_all, exec}
use device_telemetry_gateway.Segment.Hashes.{Hashes, Known, Below, step, Tracks, Tracks-elsewhere}
use device_telemetry_gateway.Segment.Evaluate.Batch.{ids}
use device_telemetry_gateway.Segment.Evaluate.Frame.{current, evaluate_profile_answers}
use device_telemetry_gateway.Segment.Incremental.Frame.{is_index, delta-index}
use device_telemetry_gateway.Segment.Incremental.Membership.{no_faults, reevaluate_done}
use device_telemetry_gateway.Segment.Incremental.{
  apply_event, after_exec, delta, distinct_ids, event_commands,
}
use device_telemetry_gateway.Segment.Incremental.Counters.{
  event_commands-Tracks, event_commands-elsewhere,
}
use device_telemetry_gateway.Segment.Hashes.Step.{step-Below, suc-Below, known_after}

module _ (redis : Redis) (floats : Floats) (segments : List (Segment floats.Float)) where
  -- The calls of `ApplyEvent` for a list of events, none of which fails.
  unfoldable pub apply_all : redis.Store → List StorefrontEvent → redis.Store
  unfolding apply_event
  apply_all s [] = s
  apply_all s (ev ∷ evs) = apply_all (apply_event redis floats segments s ev none no_faults).0 evs

module _ (redis : Redis) (hashes : Hashes redis) (floats : Floats)
    (segments : List (Segment floats.Float)) where
  run_all_index-Tracks :
      (cs : List Command) (s : redis.Store) (q : String) (t : Known)
      → All (λ c. is_index (key_of c) ≡ true) cs
      → Tracks redis s q t
      → Tracks redis (run_all redis cs s) q t
  run_all_index-Tracks [] s q t h tracks = tracks
  run_all_index-Tracks (c ∷ cs) s q t h tracks = run_all_index-Tracks cs (redis.run c s) q t h.1 (
      Tracks-elsewhere redis c s q t (λ e. ground (arith, ap is_index e, h.0))
        (λ e. ground (arith, ap is_index e, h.0)) tracks)

  apply_event-Tracks :
      (s : redis.Store) (ev : StorefrontEvent) (q : String) (n : ℕ) (t : Known)
      → Distinct String_discrete (ids segments)
      → 0 < pos_part ev.timestamp_ms
      → Below n t
      → n + 2 < 2 ^ 63
      → Tracks redis s q t
      → Tracks redis
          (apply_event redis floats segments s ev none no_faults).0
          q
          (ite (String_discrete ev.profile_id q) (step ev t) t)
  unfolding apply_event after_exec exec
  apply_event-Tracks s ev q n t d late below small tracks =
      let p = ev.profile_id in
      let now = ev.timestamp_ms in
      let before = run_all redis (event_commands redis floats segments ev) s in
      let want = current redis floats segments before p now in
      let updated : Tracks redis before q (ite (String_discrete p q) (step ev t) t) =
        elim (String_discrete p q) [
          | yes e ↦ rw (if_pos _ e) (
              subst (λ k. Tracks redis s k t → Tracks redis before k (step ev t)) e
                (event_commands-Tracks redis hashes floats segments s ev n t late below small)
                tracks)
          | no e ↦
              rw (if_neg _ e)
                (event_commands-elsewhere redis hashes floats segments s ev q t e tracks)
        ] in
      rw
        (reevaluate_done redis floats segments before p now want
          (evaluate_profile_answers redis floats segments before p now d))
        (run_all_index-Tracks
          (delta p (distinct_ids want) (redis.s_members before (segments_key p))) before q _
          (delta-index p (distinct_ids want) (redis.s_members before (segments_key p))) updated)

  pub apply_all-Tracks :
      (s : redis.Store) (evs : List StorefrontEvent) (q : String) (n : ℕ) (t : Known)
      → Distinct String_discrete (ids segments)
      → All (λ (ev : StorefrontEvent). 0 < pos_part ev.timestamp_ms) evs
      → Below n t
      → n + length evs + 1 < 2 ^ 63
      → Tracks redis s q t
      → Tracks redis (apply_all redis floats segments s evs) q (known_after q evs t)
  unfolding apply_all known_after
  apply_all-Tracks s [] q n t d late below small tracks = tracks
  apply_all-Tracks s (ev ∷ evs) q n t d late below small tracks =
      apply_all-Tracks (apply_event redis floats segments s ev none no_faults).0 evs q (n + 1) _ d
        late.1
        (elim (String_discrete ev.profile_id q) [
          | yes e ↦ rw (if_pos _ e) (step-Below ev n t below)
          | no e ↦ rw (if_neg _ e) (suc-Below n t below)
        ])
        (omega arith) (apply_event-Tracks s ev q n t d late.0 below (omega arith) tracks)
