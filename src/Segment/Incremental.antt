-- ===== src/Segment/Incremental.antt =====
-- internal/segment/incremental.go: the engine that updates the membership of a profile as its events land.
-- The engine reads and writes Redis only; `segments` is its field.
pub mod Edits
pub mod Membership
pub mod Frame
pub mod Events
pub mod Torn
pub mod Counters
pub mod Applied
pub mod Touched
use Prim.Native.String.{◌++◌ as join}
use device_telemetry_gateway.Common.{
  ℕ, zero, suc, ◌*◌, if◌then◌else◌, ite, Bool, true, false, not, List, [], ◌∷◌, ◌++◌, Option, none,
  some, String, String_discrete, contains, length, select, reference,
}
use device_telemetry_gateway.Common.Int.{ℤ, pos, ◌-ℤ◌}
use device_telemetry_gateway.Proto.{StorefrontEvent}
use device_telemetry_gateway.Segment.Floats.{Floats}
use device_telemetry_gateway.Segment.Definitions.{Segment}
use device_telemetry_gateway.Segment.Evaluate.{
  field, unix, window_start, ReadFault, Evaluated, matching, read_error, panics, evaluate_profile,
}
use device_telemetry_gateway.Segment.Redis.{
  Redis, Command, touched_profiles, stats_key, catviews_key, purch_key, segments_key, member_key,
  s_add, s_rem, h_incr_by, h_set, z_add, z_rem_range_by_score, ExecFault, exec,
}

-- The result of a call of the engine; the panic is that of `EvaluateProfile`.
pub data Status : Type 0 where
  fine failed panicked : Status

-- The keys of a map that was filled from a list.
unfoldable pub distinct_ids : List String → List String
unfolding reference
distinct_ids = reference String_discrete (λ id. id) []

-- The keys of the first set that the second lacks.
unfoldable pub lacking : List String → List String → List String
lacking xs ys = select (λ id. not (contains String_discrete ys id)) xs

-- The two commands for each id, on the profile's set and on the segment's set.
abbrev pub edits : Bool → String → List String → List Command
edits adding p [] = []
edits true p (id ∷ ids) = s_add (segments_key p) id ∷ s_add (member_key id) p ∷ edits true p ids
edits false p (id ∷ ids) = s_rem (segments_key p) id ∷ s_rem (member_key id) p ∷ edits false p ids

-- The two loops of `reevaluate`. Go ranges over its maps in no fixed order; here it is that of the lists.
unfoldable pub delta : String → List String → List String → List Command
unfolding lacking
delta p want have = edits true p (lacking want have) ++ edits false p (lacking have want)

module _ (redis : Redis) (floats : Floats) (segments : List (Segment floats.Float)) where
  pub status : redis.Store × Bool → redis.Store × Status
  status (s, true) = (s, fine)
  status (s, false) = (s, failed)

  -- `changed` is set as soon as a command is queued.
  pub write_delta : redis.Store → List Command → ExecFault → redis.Store × Status
  unfolding status
  write_delta s [] fault = (s, fine)
  write_delta s (c ∷ cs) fault = status (exec redis (c ∷ cs) fault s)

  pub update : redis.Store → String → Evaluated → Bool → ExecFault → redis.Store × Status
  unfolding delta distinct_ids write_delta
  update s p panics unread fault = (s, panicked)
  update s p read_error unread fault = (s, failed)
  update s p (matching ids) true fault = (s, failed)
  update s p (matching ids) false fault =
      write_delta s (delta p (distinct_ids ids) (redis.s_members s (segments_key p))) fault

  -- What fails in one call: a read of `EvaluateProfile`, the read of the old membership, the write.
  pub record Faults : Type 0 where
    pub reads : ReadFault
    pub members_unread : Bool
    pub write : ExecFault

  unfoldable pub reevaluate : redis.Store → String → ℤ → Faults → redis.Store × Status
  unfolding update
  reevaluate s p now faults =
      update s p (evaluate_profile redis floats segments s p now faults.reads) faults.members_unread
        faults.write

  pub view_commands : String → String → List Command
  view_commands p category =
      ite (String_discrete category "") [] (h_incr_by (catviews_key p) category 1 ∷ [])

  pub purchase_commands : StorefrontEvent → List Command
  unfolding field
  purchase_commands ev =
      h_incr_by (stats_key ev.profile_id) "purchase_count_total" 1
      ∷ h_set (stats_key ev.profile_id) "last_purchase_ts" ev.timestamp_ms
      ∷ z_add (purch_key ev.profile_id) (unix ev.timestamp_ms)
          (join ev.event_id (join "|" (floats.format (floats.parse (field ev.attributes "price")))))
      ∷ z_rem_range_by_score (purch_key ev.profile_id) (window_start ev.timestamp_ms 90)
      ∷ []

  -- The switch on the type of the event.
  pub type_commands : StorefrontEvent → List Command
  unfolding view_commands purchase_commands field
  type_commands ev = ite (String_discrete ev.event_type "purchase") (purchase_commands ev) (
      ite (String_discrete ev.event_type "add_to_cart")
        (h_set (stats_key ev.profile_id) "last_cartadd_ts" ev.timestamp_ms ∷ [])
        (ite (String_discrete ev.event_type "page_view")
          (view_commands ev.profile_id (field ev.attributes "category")) []))

  unfoldable pub event_commands : StorefrontEvent → List Command
  unfolding type_commands
  event_commands ev =
      s_add touched_profiles ev.profile_id
      ∷ h_incr_by (stats_key ev.profile_id) "total_events" 1
      ∷ h_set (stats_key ev.profile_id) "last_event_ts" ev.timestamp_ms
      ∷ type_commands ev

  pub after_exec : redis.Store × Bool → StorefrontEvent → Faults → redis.Store × Status
  unfolding reevaluate
  after_exec (s, true) ev faults = reevaluate s ev.profile_id ev.timestamp_ms faults
  after_exec (s, false) ev faults = (s, failed)

  unfoldable pub apply_event :
      redis.Store → StorefrontEvent → ExecFault → Faults → redis.Store × Status
  unfolding after_exec
  apply_event s ev fault faults = after_exec (exec redis (event_commands ev) fault s) ev faults

  pub unless_error : redis.Store → Status → redis.Store × Status → redis.Store × Status
  unless_error s fine rest = rest
  unless_error s failed rest = (s, failed)
  unless_error s panicked rest = (s, panicked)

  -- The loop of `Finalize`: it stops at the first error. The faults may depend on the profile.
  pub finalize_loop : redis.Store → List String → ℤ → (String → Faults) → redis.Store × Status
  unfolding unless_error
  finalize_loop s [] as_of faults = (s, fine)
  finalize_loop s (p ∷ ps) as_of faults =
      let (s', result) = reevaluate s p as_of (faults p) in
      let rest = finalize_loop s' ps as_of faults in unless_error s' result rest

  pub profile_count : Status → List String → ℕ
  profile_count fine profiles = length profiles
  profile_count _ profiles = 0

  -- `Finalize`; the count is the number of profiles, 0 with an error. `unread` is a failure of its first
  -- line, the read of the profiles.
  pub finalize : redis.Store → ℤ → Bool → (String → Faults) → redis.Store × Status × ℕ
  unfolding finalize_loop profile_count
  finalize s as_of true faults = (s, failed, 0)
  finalize s as_of false faults =
      let profiles = redis.s_members s touched_profiles in
      let (s', result) = finalize_loop s profiles as_of faults in
      (s', result, profile_count result profiles)

-- `MembersOf`: the keys of its map.
unfoldable pub members_of : (redis : Redis) → redis.Store → String → List String
members_of redis s segment_id = redis.s_members s (member_key segment_id)
