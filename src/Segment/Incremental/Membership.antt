-- ===== src/Segment/Incremental/Membership.antt =====
-- The membership sets in Redis after a re-evaluation: the set of the profile, and the set of each segment.
use device_telemetry_gateway.Common.{
  ◌≡◌, refl, ◌∙◌, sym, ap, Bool, true, false, ite, if_pos, if_neg, List, [], ◌∷◌, none, String,
  String_discrete, contains, arith,
}
use device_telemetry_gateway.Common.Int.{ℤ}
use device_telemetry_gateway.Segment.Floats.{Floats}
use device_telemetry_gateway.Segment.Definitions.{Segment}
use device_telemetry_gateway.Segment.Redis.{Redis, Command, segments_key, run_all, exec}
use device_telemetry_gateway.Segment.Evaluate.{matching, evaluate_profile, no_read_fault}
use device_telemetry_gateway.Segment.Incremental.{
  fine, edits, lacking, delta, distinct_ids, write_delta, update, status, Faults, reevaluate,
}
use device_telemetry_gateway.Segment.Incremental.Edits.{
  answer, in_segments, in_members, run_all-append, in_segments-edits, in_members-edits,
  contains-lacking, contains-distinct_ids,
}

module _ (redis : Redis) where
  -- The two indexes agree: the set of a segment holds the profiles whose set holds the segment.
  abbrev pub Mirrored : redis.Store → Type 0
  Mirrored s = (p id : String) → in_members redis s id p ≡ in_segments redis s p id

  -- The value after the additions and then the removals of a delta.
  settled :
      (want have : List String) (id : String) (before : Bool)
      → before ≡ contains String_discrete have id
      → answer false
          (contains String_discrete (lacking have want) id)
          (answer true (contains String_discrete (lacking want have) id) before)
        ≡ contains String_discrete want id
  settled want have id before e =
      ground (arith, contains-lacking have want id, contains-lacking want have id)

  pub delta-in_segments :
      (s : redis.Store) (p : String) (want : List String) (q id : String)
      → in_segments redis (run_all redis (delta p want (redis.s_members s (segments_key p))) s) q id
        ≡ ite (String_discrete q p) (contains String_discrete want id) (in_segments redis s q id)
  unfolding delta
  delta-in_segments s p want q id =
      let have = redis.s_members s (segments_key p) in
      let added = run_all redis (edits true p (lacking want have)) s in
      ap (λ t. in_segments redis t q id)
        (run_all-append redis (edits true p (lacking want have)) (edits false p (lacking have want))
          s)
      ∙ in_segments-edits redis false (lacking have want) added p q id
      ∙ elim (String_discrete q p) [
        | yes e ↦
            rw
              (
                if_pos _ e,
                if_pos _ e,
                in_segments-edits redis true (lacking want have) s p q id,
                if_pos _ e,
              )
              (settled want have id (in_segments redis s q id)
                (ap (λ k. in_segments redis s k id) e))
        | no e ↦ rw (
          if_neg _ e,
          if_neg _ e,
          in_segments-edits redis true (lacking want have) s p q id,
          if_neg _ e,
        )
      ]

  delta-in_members :
      (s : redis.Store) (p : String) (want : List String) (q id : String)
      → Mirrored s
      → in_members redis (run_all redis (delta p want (redis.s_members s (segments_key p))) s) id q
        ≡ ite (String_discrete q p) (contains String_discrete want id) (in_members redis s id q)
  unfolding delta
  delta-in_members s p want q id mirrored =
      let have = redis.s_members s (segments_key p) in
      let added = run_all redis (edits true p (lacking want have)) s in
      ap (λ t. in_members redis t id q)
        (run_all-append redis (edits true p (lacking want have)) (edits false p (lacking have want))
          s)
      ∙ in_members-edits redis false (lacking have want) added p q id
      ∙ elim (String_discrete q p) [
        | yes e ↦
            rw
              (
                if_pos _ e,
                if_pos _ e,
                in_members-edits redis true (lacking want have) s p q id,
                if_pos _ e,
              )
              (settled want have id (in_members redis s id q)
                (mirrored q id ∙ ap (λ k. in_segments redis s k id) e))
        | no e ↦ rw (
          if_neg _ e,
          if_neg _ e,
          in_members-edits redis true (lacking want have) s p q id,
          if_neg _ e,
        )
      ]

abbrev pub no_faults :
    {redis : Redis} {floats : Floats} {segments : List (Segment floats.Float)}
    → Faults redis floats segments
no_faults = record { reads = no_read_fault; members_unread = false; write = none }

module _ (redis : Redis) (floats : Floats) (segments : List (Segment floats.Float)) where
  pub write_delta_done :
      (s : redis.Store) (cs : List Command)
      → write_delta redis floats segments s cs none ≡ (run_all redis cs s, fine)
  unfolding write_delta status exec
  write_delta_done s [] = refl
  write_delta_done s (c ∷ cs) = refl

  pub reevaluate_done :
      (s : redis.Store) (p : String) (now : ℤ) (ids : List String)
      → evaluate_profile redis floats segments s p now no_read_fault ≡ matching ids
      → reevaluate redis floats segments s p now no_faults
        ≡ (run_all redis (delta p (distinct_ids ids) (redis.s_members s (segments_key p))) s, fine)
  unfolding reevaluate update
  reevaluate_done s p now ids e = rw e (write_delta_done s _)

  -- A re-evaluation without a fault makes the set of the profile what `EvaluateProfile` answers, leaves the
  -- sets of all other profiles alone, and keeps the two indexes in step.
  pub reevaluate-Mirrored :
      (s : redis.Store) (p : String) (now : ℤ) (ids : List String)
      → evaluate_profile redis floats segments s p now no_read_fault ≡ matching ids
      → Mirrored redis s
      → let (s', result) = reevaluate redis floats segments s p now no_faults in
        (result ≡ fine)
        × ((q id : String)
            → in_segments redis s' q id
              ≡ ite
                  (String_discrete q p)
                  (contains String_discrete ids id)
                  (in_segments redis s q id))
        × Mirrored redis s'
  reevaluate-Mirrored s p now ids e mirrored =
      let want = distinct_ids ids in
      rw (reevaluate_done s p now ids e) (
        refl,
        (λ q id. delta-in_segments redis s p want q id ∙ rw (contains-distinct_ids ids id)),
        (λ q id.
            delta-in_members redis s p want q id mirrored
            ∙ rw (mirrored q id) (sym (delta-in_segments redis s p want q id))),
      )
