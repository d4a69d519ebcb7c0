-- ===== src/Segment/Incremental/Counters.antt =====
-- The counters and times of the profiles in Redis, after the events of a stream.
use device_telemetry_gateway.Common.{
  ℕ, ◌+◌, ◌^◌, ◌<◌, ◌≢◌, if_pos, if_neg, List, [], ◌∷◌, String, String_discrete, All, arith,
}
use device_telemetry_gateway.Common.Int.{pos_part}
use device_telemetry_gateway.Proto.{StorefrontEvent}
use device_telemetry_gateway.Segment.Floats.{Floats}
use device_telemetry_gateway.Segment.Definitions.{Segment}
use device_telemetry_gateway.Segment.Redis.{
  Redis, Command, key_of, s_add, stats_key, catviews_key, touched_profiles, run_all,
}
use device_telemetry_gateway.Segment.Evaluate.{field}
use device_telemetry_gateway.Segment.Hashes.{
  Hashes, Known, Below, count_up, put, typed, step, Tracks, Tracks-elsewhere, Tracks-count_up,
  Tracks-put, Tracks-view,
}
use device_telemetry_gateway.Segment.Incremental.{
  event_commands, type_commands, purchase_commands, view_commands,
}

module _ (redis : Redis) (hashes : Hashes redis) (floats : Floats)
    (segments : List (Segment floats.Float)) where
  purchase_commands-Tracks :
      (s : redis.Store) (ev : StorefrontEvent) (n : ℕ) (t : Known)
      → 0 < pos_part ev.timestamp_ms
      → Below n t
      → n + 1 < 2 ^ 63
      → Tracks redis s ev.profile_id t
      → Tracks redis
          (run_all redis (purchase_commands redis floats segments ev) s)
          ev.profile_id
          (put "last_purchase_ts" (pos_part ev.timestamp_ms) (count_up "purchase_count_total" t))
  unfolding purchase_commands
  purchase_commands-Tracks s ev n t late below small tracks =
      let p = ev.profile_id in
      let b = below.purchases in
      let counted =
        Tracks-count_up redis hashes s p "purchase_count_total" t (omega arith) tracks in
      let set = Tracks-put redis hashes _ p "last_purchase_ts" ev.timestamp_ms _ late counted in
      Tracks-elsewhere redis _ _ p _ (λ e. cc) (λ e. cc)
        (Tracks-elsewhere redis _ _ p _ (λ e. cc) (λ e. cc) set)

  type_commands-Tracks :
      (s : redis.Store) (ev : StorefrontEvent) (n : ℕ) (t : Known)
      → 0 < pos_part ev.timestamp_ms
      → Below n t
      → n + 1 < 2 ^ 63
      → Tracks redis s ev.profile_id t
      → Tracks redis
          (run_all redis (type_commands redis floats segments ev) s)
          ev.profile_id
          (typed ev t)
  unfolding type_commands view_commands
  type_commands-Tracks s ev n t late below small tracks =
      elim (String_discrete ev.event_type "purchase") [
        | yes e ↦
            rw (if_pos _ e, if_pos _ e) (purchase_commands-Tracks s ev n t late below small tracks)
        | no e ↦
            rw (if_neg _ e, if_neg _ e)
              (elim (String_discrete ev.event_type "add_to_cart") [
                | yes f ↦
                    rw (if_pos _ f, if_pos _ f)
                      (Tracks-put redis hashes s ev.profile_id "last_cartadd_ts" ev.timestamp_ms t
                        late tracks)
                | no f ↦
                    rw (if_neg _ f, if_neg _ f)
                      (elim (String_discrete ev.event_type "page_view") [
                        | yes g ↦
                            rw (if_pos _ g, if_pos _ g)
                              (elim (String_discrete (field ev.attributes "category") "") [
                                | yes h ↦ rw (if_pos _ h, if_pos _ h) tracks
                                | no h ↦
                                    rw (if_neg _ h, if_neg _ h)
                                      (Tracks-view redis hashes s ev.profile_id
                                        (field ev.attributes "category") t
                                        (let b = below.views (field ev.attributes "category") h in
                                          omega arith)
                                        tracks)
                              ])
                        | no g ↦ rw (if_neg _ g, if_neg _ g) tracks
                      ])
              ])
      ]

  -- The commands of an event, for its own profile and for another.
  pub event_commands-Tracks :
      (s : redis.Store) (ev : StorefrontEvent) (n : ℕ) (t : Known)
      → 0 < pos_part ev.timestamp_ms
      → Below n t
      → n + 2 < 2 ^ 63
      → Tracks redis s ev.profile_id t
      → Tracks redis
          (run_all redis (event_commands redis floats segments ev) s)
          ev.profile_id
          (step ev t)
  unfolding event_commands String_discrete
  event_commands-Tracks s ev n t late below small tracks =
      let p = ev.profile_id in
      let b = below.events in
      let touched =
        Tracks-elsewhere redis (s_add touched_profiles p) s p t (λ e. cc) (λ e. cc) tracks in
      let counted = Tracks-count_up redis hashes _ p "total_events" t (omega arith) touched in
      let set = Tracks-put redis hashes _ p "last_event_ts" ev.timestamp_ms _ late counted in
      let known = put "last_event_ts" (pos_part ev.timestamp_ms) (count_up "total_events" t) in
      let still : Below (n + 1) known = record {
        events = omega (arith, below.events);
        purchases = omega (arith, below.purchases);
        views = λ c h. omega (arith, below.views c h);
      } in
      type_commands-Tracks _ ev (n + 1) known late still (omega arith) set

  purchase_commands-elsewhere :
      (ev : StorefrontEvent) (q : String)
      → ev.profile_id ≢ q
      → All
          (λ c. (key_of c ≢ stats_key q) × (key_of c ≢ catviews_key q))
          (purchase_commands redis floats segments ev)
  unfolding purchase_commands
  purchase_commands-elsewhere ev q h =
      ((λ e. h cc, λ e. cc), ((λ e. h cc, λ e. cc), ((λ e. cc, λ e. cc), ((λ e. cc, λ e. cc), tt))))

  type_commands-elsewhere :
      (ev : StorefrontEvent) (q : String)
      → ev.profile_id ≢ q
      → All
          (λ c. (key_of c ≢ stats_key q) × (key_of c ≢ catviews_key q))
          (type_commands redis floats segments ev)
  unfolding type_commands view_commands
  type_commands-elsewhere ev q h = elim (String_discrete ev.event_type "purchase") [
    | yes e ↦ rw (if_pos _ e) (purchase_commands-elsewhere ev q h)
    | no e ↦ rw (if_neg _ e) (elim (String_discrete ev.event_type "add_to_cart") [
      | yes f ↦ rw (if_pos _ f) ((λ e. h cc, λ e. cc), tt)
      | no f ↦ rw (if_neg _ f) (elim (String_discrete ev.event_type "page_view") [
        | yes g ↦ rw (if_pos _ g) (elim (String_discrete (field ev.attributes "category") "") [
          | yes h' ↦ rw (if_pos _ h') tt
          | no h' ↦ rw (if_neg _ h') ((λ e. cc, λ e. h cc), tt)
        ])
        | no g ↦ rw (if_neg _ g) tt
      ])
    ])
  ]

  run_all-Tracks :
      (cs : List Command) (s : redis.Store) (q : String) (t : Known)
      → All (λ c. (key_of c ≢ stats_key q) × (key_of c ≢ catviews_key q)) cs
      → Tracks redis s q t
      → Tracks redis (run_all redis cs s) q t
  run_all-Tracks [] s q t h tracks = tracks
  run_all-Tracks (c ∷ cs) s q t h tracks =
      run_all-Tracks cs (redis.run c s) q t h.1 (Tracks-elsewhere redis c s q t h.0.0 h.0.1 tracks)

  pub event_commands-elsewhere :
      (s : redis.Store) (ev : StorefrontEvent) (q : String) (t : Known)
      → ev.profile_id ≢ q
      → Tracks redis s q t
      → Tracks redis (run_all redis (event_commands redis floats segments ev) s) q t
  unfolding event_commands
  event_commands-elsewhere s ev q t h tracks =
      run_all-Tracks (event_commands redis floats segments ev) s q t
        (
          (λ e. cc, λ e. cc),
          ((λ e. h cc, λ e. cc), ((λ e. h cc, λ e. cc), type_commands-elsewhere ev q h)),
        )
        tracks
