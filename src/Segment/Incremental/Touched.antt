-- ===== src/Segment/Incremental/Touched.antt =====
-- The set of touched profiles after a run of events, and the membership of the profiles that no event touched.
use device_telemetry_gateway.Common.{
  ◌≡◌, refl, ◌∙◌, ap, Bool, true, false, if◌then◌else◌, ite, if_pos, if_neg, List, [], ◌∷◌, map,
  none, String, String_discrete, All, Distinct, contains, arith,
}
use device_telemetry_gateway.Proto.{StorefrontEvent}
use device_telemetry_gateway.Segment.Floats.{Floats}
use device_telemetry_gateway.Segment.Definitions.{Segment}
use device_telemetry_gateway.Segment.Redis.{
  Redis, Key, Command, stats_key, catviews_key, purch_key, segments_key, member_key, h_incr_by,
  h_set, touched_profiles, s_add, key_of, run_all, exec,
}
use device_telemetry_gateway.Segment.Evaluate.{field}
use device_telemetry_gateway.Segment.Evaluate.Batch.{ids}
use device_telemetry_gateway.Segment.Evaluate.Frame.{current, evaluate_profile_answers}
use device_telemetry_gateway.Segment.Incremental.{
  apply_event, after_exec, delta, distinct_ids, event_commands, type_commands, purchase_commands,
  view_commands,
}
use device_telemetry_gateway.Segment.Incremental.Edits.{in_segments}
use device_telemetry_gateway.Segment.Incremental.Frame.{is_index, delta-index}
use device_telemetry_gateway.Segment.Incremental.Membership.{Mirrored, no_faults, reevaluate_done}
use device_telemetry_gateway.Segment.Incremental.Events.{apply_event-Mirrored}
use device_telemetry_gateway.Segment.Incremental.Applied.{apply_all}

abbrev is_touched : Key → Bool
is_touched touched_profiles = true
is_touched _ = false

module _ (redis : Redis) (floats : Floats) (segments : List (Segment floats.Float)) where
  abbrev pub touched : redis.Store → String → Bool
  touched s q = contains String_discrete (redis.s_members s touched_profiles) q

  abbrev Apart : List Command → Type 0
  Apart cs = All (λ c. is_touched (key_of c) ≡ false) cs

  type_commands-Apart : (ev : StorefrontEvent) → Apart (type_commands redis floats segments ev)
  unfolding type_commands purchase_commands view_commands
  type_commands-Apart ev = elim (String_discrete ev.event_type "purchase") [
    | yes e ↦ rw (if_pos _ e) (refl, (refl, (refl, (refl, tt))))
    | no e ↦ rw (if_neg _ e) (elim (String_discrete ev.event_type "add_to_cart") [
      | yes f ↦ rw (if_pos _ f) (refl, tt)
      | no f ↦ rw (if_neg _ f) (elim (String_discrete ev.event_type "page_view") [
        | yes g ↦ rw (if_pos _ g) (elim (String_discrete (field ev.attributes "category") "") [
          | yes h ↦ rw (if_pos _ h) tt
          | no h ↦ rw (if_neg _ h) (refl, tt)
        ])
        | no g ↦ rw (if_neg _ g) tt
      ])
    ])
  ]

  touched-run_all :
      (cs : List Command) (s : redis.Store) (q : String)
      → Apart cs
      → touched (run_all redis cs s) q ≡ touched s q
  touched-run_all [] s q h = refl
  touched-run_all (c ∷ cs) s q h =
      touched-run_all cs (redis.run c s) q h.1
      ∙ ap (λ xs. contains String_discrete xs q)
          (redis.s_members_elsewhere c s touched_profiles
            (λ e. ground (arith, ap is_touched e, h.0)))

  index-Apart : (cs : List Command) → All (λ c. is_index (key_of c) ≡ true) cs → Apart cs
  index-Apart [] h = tt
  index-Apart (c ∷ cs) h = (apart (key_of c) h.0, index-Apart cs h.1)
    where
      apart : (k : Key) → is_index k ≡ true → is_touched k ≡ false
      apart touched_profiles e = absurd (ground arith)
      apart (stats_key p) e = refl
      apart (catviews_key p) e = refl
      apart (purch_key p) e = refl
      apart (segments_key p) e = refl
      apart (member_key p) e = refl

  event_commands-touched :
      (s : redis.Store) (ev : StorefrontEvent) (q : String)
      → touched (run_all redis (event_commands redis floats segments ev) s) q
        ≡ ite (String_discrete q ev.profile_id) true (touched s q)
  unfolding event_commands
  event_commands-touched s ev q =
      let tail =
        h_incr_by (stats_key ev.profile_id) "total_events" 1
        ∷ h_set (stats_key ev.profile_id) "last_event_ts" ev.timestamp_ms
        ∷ type_commands redis floats segments ev in
      touched-run_all tail (redis.run (s_add touched_profiles ev.profile_id) s) q
        (refl, (refl, type_commands-Apart ev))
      ∙ redis.s_members-s_add s touched_profiles ev.profile_id q

  touched-apply_event :
      (s : redis.Store) (ev : StorefrontEvent) (q : String)
      → Distinct String_discrete (ids segments)
      → touched (apply_event redis floats segments s ev none no_faults).0 q
        ≡ ite (String_discrete q ev.profile_id) true (touched s q)
  unfolding apply_event after_exec exec
  touched-apply_event s ev q d =
      let p = ev.profile_id in
      let now = ev.timestamp_ms in
      let before = run_all redis (event_commands redis floats segments ev) s in
      let want = current redis floats segments before p now in
      let cs = delta p (distinct_ids want) (redis.s_members before (segments_key p)) in
      rw
        (reevaluate_done redis floats segments before p now want
          (evaluate_profile_answers redis floats segments before p now d))
        (touched-run_all cs before q (
            index-Apart cs
              (delta-index p (distinct_ids want) (redis.s_members before (segments_key p))))
          ∙ event_commands-touched s ev q)

  pub apply_all-touched :
      (s : redis.Store) (evs : List StorefrontEvent) (q : String)
      → Distinct String_discrete (ids segments)
      → touched (apply_all redis floats segments s evs) q ≡ (
          if contains String_discrete (map (λ (ev : StorefrontEvent). ev.profile_id) evs) q
          then true
          else touched s q)
  unfolding apply_all contains
  apply_all-touched s [] q d = refl
  apply_all-touched s (ev ∷ evs) q d =
      let s' = (apply_event redis floats segments s ev none no_faults).0 in
      let first = touched-apply_event s ev q d in
      elim (String_discrete q ev.profile_id) [
        | yes e ↦ rw (apply_all-touched s' evs q d, first, if_pos _ e, if_pos _ e) (ground arith)
        | no e ↦ rw (apply_all-touched s' evs q d, first, if_neg _ e, if_neg _ e) refl
      ]

  -- The segments of a profile without an event stay.
  pub apply_all-others :
      (s : redis.Store) (evs : List StorefrontEvent) (q id : String)
      → Distinct String_discrete (ids segments)
      → Mirrored redis s
      → contains String_discrete (map (λ (ev : StorefrontEvent). ev.profile_id) evs) q ≡ false
      → in_segments redis (apply_all redis floats segments s evs) q id ≡ in_segments redis s q id
  unfolding apply_all contains
  apply_all-others s [] q id d mirrored h = refl
  apply_all-others s (ev ∷ evs) q id d mirrored h =
      let (_, sets, mirrored') = apply_event-Mirrored redis floats segments s ev d mirrored in
      apply_all-others (apply_event redis floats segments s ev none no_faults).0 evs q id d
        mirrored' (ground arith)
      ∙ sets q id
      ∙ if_neg (String_discrete q ev.profile_id) (λ e. ground arith) _ _
