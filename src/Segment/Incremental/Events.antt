-- ===== src/Segment/Incremental/Events.antt =====
-- Whole calls of the engine: one event, and the final pass over every touched profile.
use device_telemetry_gateway.Common.{
  ◌≡◌, refl, ◌∙◌, ap, Bool, false, if◌then◌else◌, ite, List, [], ◌∷◌, none, String, String_discrete,
  Distinct, contains, length, arith,
}
use device_telemetry_gateway.Common.Int.{ℤ}
use device_telemetry_gateway.Proto.{StorefrontEvent}
use device_telemetry_gateway.Segment.Floats.{Floats}
use device_telemetry_gateway.Segment.Definitions.{Segment}
use device_telemetry_gateway.Segment.Redis.{
  Redis, touched_profiles, segments_key, member_key, run_all, exec,
}
use device_telemetry_gateway.Segment.Evaluate.Batch.{ids}
use device_telemetry_gateway.Segment.Evaluate.Frame.{current, ids_of, evaluate_profile_answers}
use device_telemetry_gateway.Segment.Incremental.{
  fine, delta, distinct_ids, reevaluate, event_commands, after_exec, apply_event, finalize_loop,
  unless_error, profile_count, finalize,
}
use device_telemetry_gateway.Segment.Incremental.Edits.{in_segments}
use device_telemetry_gateway.Segment.Incremental.Frame.{
  delta-index, event_commands-Plain, s_members-run_all, evaluate_profile-run_all,
}
use device_telemetry_gateway.Segment.Incremental.Membership.{
  Mirrored, no_faults, reevaluate_done, reevaluate-Mirrored,
}

one_more :
    (q p : String) (ps : List String) (last middle before here there : Bool)
    → last ≡ (if contains String_discrete ps q then here else middle)
    → middle ≡ ite (String_discrete q p) there before
    → (q ≡ p → here ≡ there)
    → last ≡ (if contains String_discrete (p ∷ ps) q then here else before)
unfolding contains
one_more q p ps last middle before here there e f g = elim (String_discrete q p) [
  | yes h ↦ ground (arith, g h)
  | no h ↦ ground arith
]

module _ (redis : Redis) (floats : Floats) (segments : List (Segment floats.Float)) where
  event_commands-Mirrored :
      (s : redis.Store) (ev : StorefrontEvent)
      → Mirrored redis s
      → Mirrored redis (run_all redis (event_commands redis floats segments ev) s)
  event_commands-Mirrored s ev mirrored p id =
      let cs = event_commands redis floats segments ev in
      let plain = event_commands-Plain redis floats segments ev in
      rw
        (
          s_members-run_all redis floats segments cs s (member_key id) refl plain,
          s_members-run_all redis floats segments cs s (segments_key p) refl plain,
        )
        (mirrored p id)

  -- One event, with no fault and segments of different ids: the profile's set of segments becomes what
  -- `EvaluateProfile` answers right after the event's own updates, as of the event's time; the sets of
  -- all other profiles stay; and the sets of the segments stay in step with those of the profiles.
  pub apply_event-Mirrored :
      (s : redis.Store) (ev : StorefrontEvent)
      → Distinct String_discrete (ids segments)
      → Mirrored redis s
      → let before = run_all redis (event_commands redis floats segments ev) s in
        let (s', result) = apply_event redis floats segments s ev none no_faults in
        (result ≡ fine)
        × ((q id : String)
            → in_segments redis s' q id
              ≡ ite
                  (String_discrete q ev.profile_id)
                  (contains String_discrete
                    (current redis floats segments before ev.profile_id ev.timestamp_ms)
                    id)
                  (in_segments redis s q id))
        × Mirrored redis s'
  unfolding apply_event after_exec exec
  apply_event-Mirrored s ev d mirrored =
      let before = run_all redis (event_commands redis floats segments ev) s in
      let now = ev.timestamp_ms in
      let p = ev.profile_id in
      let (done, sets, in_step) =
        reevaluate-Mirrored redis floats segments before p now
          (current redis floats segments before p now)
          (evaluate_profile_answers redis floats segments before p now d)
          (event_commands-Mirrored s ev mirrored) in
      (
        done,
        (λ q id.
            sets q id
            ∙ rw (
                s_members-run_all redis floats segments (event_commands redis floats segments ev) s
                  (segments_key q) refl (event_commands-Plain redis floats segments ev))),
        in_step,
      )

  -- The state that `EvaluateProfile` reads survives a re-evaluation.
  current-reevaluate :
      (s : redis.Store) (p : String) (now : ℤ)
      → Distinct String_discrete (ids segments)
      → (q : String) (t : ℤ)
      → current redis floats segments (reevaluate redis floats segments s p now no_faults).0 q t
        ≡ current redis floats segments s q t
  current-reevaluate s p now d q t =
      let want = current redis floats segments s p now in
      rw
        (reevaluate_done redis floats segments s p now want
          (evaluate_profile_answers redis floats segments s p now d))
        (ap ids_of (
          evaluate_profile-run_all redis floats segments
            (delta p (distinct_ids want) (redis.s_members s (segments_key p))) s q t
            (delta-index p (distinct_ids want) (redis.s_members s (segments_key p)))))

  -- What a run of re-evaluations leaves.
  pub record Finalized (s s' : redis.Store) (ps : List String) (now : ℤ) : Type 0 where
    pub sets :
        (q id : String)
        → in_segments redis s' q id ≡ (
            if contains String_discrete ps q
            then contains String_discrete (current redis floats segments s' q now) id
            else in_segments redis s q id)
    pub in_step : Mirrored redis s'
    pub answers :
        (q : String)
        → current redis floats segments s' q now ≡ current redis floats segments s q now

  finalize_loop-Finalized :
      (s : redis.Store) (ps : List String) (now : ℤ)
      → Distinct String_discrete (ids segments)
      → Mirrored redis s
      → let (s', result) = finalize_loop redis floats segments s ps now (λ p. no_faults) in
        (result ≡ fine) × Finalized s s' ps now
  unfolding finalize_loop unless_error contains
  finalize_loop-Finalized s [] now d mirrored =
      (refl, record { sets = λ q id. refl; in_step = mirrored; answers = λ q. refl })
  finalize_loop-Finalized s (p ∷ ps) now d mirrored =
      let s1 = (reevaluate redis floats segments s p now no_faults).0 in
      let (done, sets, in_step) =
        reevaluate-Mirrored redis floats segments s p now (current redis floats segments s p now)
          (evaluate_profile_answers redis floats segments s p now d) mirrored in
      let last = (finalize_loop redis floats segments s1 ps now (λ p. no_faults)).0 in
      let (fine', rest) = finalize_loop-Finalized s1 ps now d in_step in
      rw done (
        fine',
        record {
          sets = λ q id.
              one_more q p ps _ _ _
                (contains String_discrete (current redis floats segments last q now) id)
                (contains String_discrete (current redis floats segments s p now) id)
                (rest.sets q id) (sets q id)
                (λ e.
                  ap (λ ids. contains String_discrete ids id)
                    (rest.answers q
                      ∙ current-reevaluate s p now d q now
                      ∙ ap (λ k. current redis floats segments s k now) e));
          in_step = rest.in_step;
          answers = λ q. rest.answers q ∙ current-reevaluate s p now d q now;
        },
      )

  -- The final pass, with no fault and segments of different ids: it counts the touched profiles, the set of
  -- each becomes what `EvaluateProfile` answers as of the given time, in the final state, the sets of all
  -- other profiles stay, and the sets of the segments stay in step with those of the profiles.
  pub finalize-Finalized :
      (s : redis.Store) (as_of : ℤ)
      → Distinct String_discrete (ids segments)
      → Mirrored redis s
      → let (s', result, count) = finalize redis floats segments s as_of false (λ p. no_faults) in
        (result ≡ fine)
        × (count ≡ length (redis.s_members s touched_profiles))
        × Finalized s s' (redis.s_members s touched_profiles) as_of
  unfolding finalize profile_count
  finalize-Finalized s as_of d mirrored =
      let (done, state) =
        finalize_loop-Finalized s (redis.s_members s touched_profiles) as_of d mirrored in
      (done, rw done refl, state)
