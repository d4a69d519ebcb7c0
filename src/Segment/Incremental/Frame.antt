-- ===== src/Segment/Incremental/Frame.antt =====
-- The state that `EvaluateProfile` reads, and the membership sets: commands on one leave the other alone.
use device_telemetry_gateway.Common.{
  ◌≡◌, ◌≢◌, refl, ◌∙◌, ap, Bool, true, false, if_pos, if_neg, List, [], ◌∷◌, String,
  String_discrete, All, All-append, arith,
}
use device_telemetry_gateway.Common.Int.{ℤ}
use device_telemetry_gateway.Proto.{StorefrontEvent}
use device_telemetry_gateway.Segment.Floats.{Floats}
use device_telemetry_gateway.Segment.Definitions.{Segment}
use device_telemetry_gateway.Segment.Redis.{
  Redis, Key, Command, segments_key, member_key, key_of, run_all,
}
use device_telemetry_gateway.Segment.Evaluate.{evaluate_profile, no_read_fault, field}
use device_telemetry_gateway.Segment.Evaluate.Frame.{evaluate_profile-run}
use device_telemetry_gateway.Segment.Incremental.{
  edits, delta, lacking, event_commands, type_commands, purchase_commands, view_commands,
}

-- The sets of profiles and of segments.
abbrev pub is_index : Key → Bool
is_index (segments_key p) = true
is_index (member_key id) = true
is_index _ = false

pub index_ne : (b : Bool) (k j : Key) → is_index k ≡ b → is_index j ≢ b → k ≢ j
index_ne b k j h g e = g (rw (← e) h)

pub edits-index :
    (adding : Bool) (p : String) (xs : List String)
    → All (λ c. is_index (key_of c) ≡ true) (edits adding p xs)
edits-index adding p [] = tt
edits-index true p (x ∷ xs) = (refl, (refl, edits-index true p xs))
edits-index false p (x ∷ xs) = (refl, (refl, edits-index false p xs))

pub delta-index :
    (p : String) (want have : List String)
    → All (λ c. is_index (key_of c) ≡ true) (delta p want have)
unfolding delta
delta-index p want have =
    All-append _ (edits true p (lacking want have)) (edits false p (lacking have want))
      (edits-index true p (lacking want have)) (edits-index false p (lacking have want))

module _ (redis : Redis) (floats : Floats) (segments : List (Segment floats.Float)) where
  abbrev pub Plain : List Command → Type 0
  Plain cs = All (λ c. is_index (key_of c) ≡ false) cs

  type_commands-Plain : (ev : StorefrontEvent) → Plain (type_commands redis floats segments ev)
  unfolding type_commands purchase_commands view_commands
  type_commands-Plain ev = elim (String_discrete ev.event_type "purchase") [
    | yes e ↦ rw (if_pos _ e) (refl, (refl, (refl, (refl, tt))))
    | no e ↦ rw (if_neg _ e) (elim (String_discrete ev.event_type "add_to_cart") [
      | yes f ↦ rw (if_pos _ f) (refl, tt)
      | no f ↦ rw (if_neg _ f) (elim (String_discrete ev.event_type "page_view") [
        | yes g ↦ rw (if_pos _ g) (elim (String_discrete (field ev.attributes "category") "") [
          | yes h ↦ rw (if_pos _ h) tt
          | no h ↦ rw (if_neg _ h) (refl, tt)
        ])
        | no g ↦ rw (if_neg _ g) tt
      ])
    ])
  ]

  -- The commands of an event touch no membership set.
  pub event_commands-Plain :
      (ev : StorefrontEvent) → Plain (event_commands redis floats segments ev)
  unfolding event_commands
  event_commands-Plain ev = (refl, (refl, (refl, type_commands-Plain ev)))

  pub s_members-run_all :
      (cs : List Command) (s : redis.Store) (k : Key)
      → is_index k ≡ true
      → Plain cs
      → redis.s_members (run_all redis cs s) k ≡ redis.s_members s k
  s_members-run_all [] s k h plain = refl
  s_members-run_all (c ∷ cs) s k h plain =
      s_members-run_all cs (redis.run c s) k h plain.1
      ∙ redis.s_members_elsewhere c s k (λ e. ground (arith, ap is_index e, plain.0))

  -- Commands on the membership sets do not change what `EvaluateProfile` answers for any profile.
  pub evaluate_profile-run_all :
      (cs : List Command) (s : redis.Store) (p : String) (now : ℤ)
      → All (λ c. is_index (key_of c) ≡ true) cs
      → evaluate_profile redis floats segments (run_all redis cs s) p now no_read_fault
        ≡ evaluate_profile redis floats segments s p now no_read_fault
  evaluate_profile-run_all [] s p now h = refl
  evaluate_profile-run_all (c ∷ cs) s p now h =
      evaluate_profile-run_all cs (redis.run c s) p now h.1
      ∙ evaluate_profile-run redis floats segments c s p now
          (λ k. ground (arith, ap is_index k, h.0)) (λ k. ground (arith, ap is_index k, h.0))
          (λ k. ground (arith, ap is_index k, h.0))
