-- ===== src/Segment/Incremental/Torn.antt =====
-- A membership write that breaks off between the two commands for one id.
use device_telemetry_gateway.Common.{
  ◌≡◌, ◌∙◌, ap, true, false, List, ◌∷◌, some, String, String_discrete, contains, arith,
}
use device_telemetry_gateway.Common.Int.{ℤ}
use device_telemetry_gateway.Segment.Floats.{Floats}
use device_telemetry_gateway.Segment.Definitions.{Segment}
use device_telemetry_gateway.Segment.Redis.{Redis, segments_key, member_key, s_add, run_all, exec}
use device_telemetry_gateway.Segment.Evaluate.{evaluate_profile, no_read_fault, matching}
use device_telemetry_gateway.Segment.Incremental.{
  failed, edits, lacking, delta, distinct_ids, write_delta, update, status, Faults, reevaluate,
}
use device_telemetry_gateway.Segment.Incremental.Edits.{
  segments_ne, in_segments, in_members, run_all-append, in_members-edits, contains-lacking,
  contains-distinct_ids,
}
use device_telemetry_gateway.Segment.Incremental.Membership.{
  no_faults, reevaluate_done, delta-in_segments,
}

module _ (redis : Redis) (floats : Floats) (segments : List (Segment floats.Float)) where
  abbrev pub torn : Faults redis floats segments
  torn = record { reads = no_read_fault; members_unread = false; write = some 1 }

  -- A segment that the profile has and keeps gets no command.
  delta-in_members_kept :
      (s : redis.Store) (p : String) (want : List String) (id : String)
      → in_segments redis s p id ≡ true
      → contains String_discrete want id ≡ true
      → in_members redis (run_all redis (delta p want (redis.s_members s (segments_key p))) s) id p
        ≡ in_members redis s id p
  unfolding delta
  delta-in_members_kept s p want id had wanted =
      let have = redis.s_members s (segments_key p) in
      let added = run_all redis (edits true p (lacking want have)) s in
      ap (λ t. in_members redis t id p)
        (run_all-append redis (edits true p (lacking want have)) (edits false p (lacking have want))
          s)
      ∙ in_members-edits redis false (lacking have want) added p p id
      ∙ ground (
        arith,
        in_members-edits redis true (lacking want have) s p p id,
        contains-lacking have want id,
        contains-lacking want have id,
      )

  torn_write :
      (s : redis.Store) (p : String) (now : ℤ) (ids more : List String) (id : String)
      → evaluate_profile redis floats segments s p now no_read_fault ≡ matching ids
      → lacking (distinct_ids ids) (redis.s_members s (segments_key p)) ≡ id ∷ more
      → reevaluate redis floats segments s p now torn
        ≡ (redis.run (s_add (segments_key p) id) s, failed)
  unfolding reevaluate update write_delta status exec delta
  torn_write s p now ids more id e new = rw (e, new)

  -- What may happen after the broken write: re-evaluations of the profile that succeed and still answer the
  -- segment, and anything else (counters, other profiles) that leaves alone the segment's entry in the
  -- profile's set and the profile's entry in the segment's set.
  pub data Later (p : String) (id : String) (s : redis.Store) : redis.Store → Type 0 where
    nothing : Later p id s s
    reevaluated :
        {t : redis.Store} (now : ℤ) (ids : List String)
        → Later p id s t
        → evaluate_profile redis floats segments t p now no_read_fault ≡ matching ids
        → contains String_discrete ids id ≡ true
        → Later p id s (reevaluate redis floats segments t p now no_faults).0
    elsewhere :
        {t u : redis.Store}
        → Later p id s t
        → in_segments redis u p id ≡ in_segments redis t p id
        → in_members redis u id p ≡ in_members redis t id p
        → Later p id s u

  Later-torn :
      (s : redis.Store) (p id : String) (t : redis.Store)
      → in_segments redis s p id ≡ true
      → in_members redis s id p ≡ false
      → Later p id s t
      → (in_segments redis t p id ≡ true) × (in_members redis t id p ≡ false)
  Later-torn s p id t had lacks nothing = (had, lacks)
  Later-torn s p id u had lacks (elsewhere {t} run same same') =
      let (had', lacks') = Later-torn s p id t had lacks run in (same ∙ had', same' ∙ lacks')
  Later-torn s p id u had lacks (reevaluated {t} now ids run e wanted) =
      let (had', lacks') = Later-torn s p id t had lacks run in
      let wanted' : contains String_discrete (distinct_ids ids) id ≡ true =
        contains-distinct_ids ids id ∙ wanted in
      rw (reevaluate_done redis floats segments t p now ids e) (
        delta-in_segments redis t p (distinct_ids ids) p id ∙ ground (arith, wanted'),
        delta-in_members_kept t p (distinct_ids ids) id had' wanted' ∙ lacks',
      )

  -- If the connection breaks after the first command of a membership write, the re-evaluation fails, the
  -- profile's set has the segment and the segment's set lacks the profile. That stays so through any number
  -- of later re-evaluations of the profile that succeed and still answer the segment, and of other changes
  -- that leave these two entries alone.
  pub torn_membership_stays :
      (s t : redis.Store) (p : String) (now : ℤ) (ids more : List String) (id : String)
      → evaluate_profile redis floats segments s p now no_read_fault ≡ matching ids
      → lacking (distinct_ids ids) (redis.s_members s (segments_key p)) ≡ id ∷ more
      → in_members redis s id p ≡ false
      → Later p id (reevaluate redis floats segments s p now torn).0 t
      → ((reevaluate redis floats segments s p now torn).1 ≡ failed)
        × (in_segments redis t p id ≡ true)
        × (in_members redis t id p ≡ false)
  torn_membership_stays s t p now ids more id e new absent later =
      let s1 = redis.run (s_add (segments_key p) id) s in
      let broke = torn_write s p now ids more id e new in
      let had : in_segments redis s1 p id ≡ true =
        redis.s_members-s_add s (segments_key p) id id ∙ ground arith in
      let lacks : in_members redis s1 id p ≡ false =
        ap (λ m. contains String_discrete m p)
          (redis.s_members_elsewhere (s_add (segments_key p) id) s (member_key id)
            (segments_ne id p))
        ∙ absent in
      let stays = Later-torn s1 p id t had lacks (rw broke at later) in
      (ap (λ r. r.1) broke, stays.0, stays.1)
