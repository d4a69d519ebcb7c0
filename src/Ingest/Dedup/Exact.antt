-- ===== src/Ingest/Dedup/Exact.antt =====
-- `Dedup` against the independent reference of internal/ingest/reference.go.
use device_telemetry_gateway.Common.{
  ℕ, ◌+◌, ◌≤◌, ◌≡◌, refl, sym, ◌∙◌, true, false, if◌then◌else◌, List, [], ◌∷◌, ◌++◌, String,
  String_discrete, ℕ_discrete, if_pos, if_neg, select, arith, ap, Bool-cases, inl, inr, contains,
  contains-append, reference, length, length-append, lookup,
}
use device_telemetry_gateway.Proto.{Reading}
use device_telemetry_gateway.Fifo
use device_telemetry_gateway.Fifo.Valid.{order-admit_fresh, admit_seen}
use device_telemetry_gateway.Fifo.Runs.{order-admit_room}
use device_telemetry_gateway.Ingest.Dedup.{
  Dedup, max_sequences_per_device, new_dedup, device_seen, admit, admit_all, Key, Key_discrete, key,
  reference_dedup,
}
use device_telemetry_gateway.Ingest.Dedup.Valid.{IsDedup, device_seen-IsDeviceSeen, admit-IsDedup}
use device_telemetry_gateway.Ingest.Dedup.Devices.{
  is_device, device_seen-admit_self, device_seen-admit_ne,
}

-- A reading whose sequence the queue holds is refused, and every device's record stays.
admit_old :
    (d : Dedup) (r : Reading)
    → IsDedup d
    → contains ℕ_discrete (device_seen d r.device_id).order r.sequence ≡ true
    → ((admit d r.device_id r.sequence).1 ≡ false)
      × ((other : String)
          → device_seen (admit d r.device_id r.sequence).0 other ≡ device_seen d other)
unfolding admit Fifo.admit
admit_old d r v old =
    let refused =
      admit_seen ℕ_discrete max_sequences_per_device (device_seen d r.device_id) r.sequence
        (device_seen-IsDeviceSeen d r.device_id v) old in
    (
      ap (λ p. p.1) refused,
      λ other. elim (String_discrete other r.device_id) [
        | yes same ↦
            rw same (device_seen-admit_self d r.device_id r.sequence ∙ ap (λ p. p.0) refused)
        | no ne ↦ device_seen-admit_ne d r.device_id other r.sequence ne
      ],
    )

-- A reading that is new, to a device with room, joins that device's queue and no other.
admit_new :
    (d : Dedup) (r : Reading)
    → IsDedup d
    → contains ℕ_discrete (device_seen d r.device_id).order r.sequence ≡ false
    → length (device_seen d r.device_id).order + 1 ≤ max_sequences_per_device
    → ((admit d r.device_id r.sequence).1 ≡ true)
      × ((other : String)
          → (device_seen (admit d r.device_id r.sequence).0 other).order ≡ (
              if is_device other r
              then (device_seen d other).order ++ (r.sequence ∷ [])
              else (device_seen d other).order))
unfolding admit
admit_new d r v fresh room =
    let valid = device_seen-IsDeviceSeen d r.device_id v in
    let ds = device_seen d r.device_id in
    (
      (order-admit_fresh ℕ_discrete max_sequences_per_device ds r.sequence valid fresh).0,
      λ other. elim (String_discrete r.device_id other) [
        | yes same ↦ rw (if_pos (String_discrete r.device_id other) same) (
            rw (← same) (
              ap (λ s. s.order) (device_seen-admit_self d r.device_id r.sequence)
              ∙ order-admit_room ℕ_discrete max_sequences_per_device ds r.sequence valid fresh
                  room))
        | no ne ↦ rw (if_neg (String_discrete r.device_id other) ne) (
            ap (λ s. s.order)
              (device_seen-admit_ne d r.device_id other r.sequence (λ e. ne (sym e))))
      ],
    )

-- The queues hold what the reference has seen.
abbrev Agrees : Dedup → List Key → Type 0
Agrees d seen =
    (k : Key)
    → contains Key_discrete seen k ≡ contains ℕ_discrete (device_seen d k.device).order k.seq

-- Every device's queue has room for what the reference would still keep of that device.
abbrev HasRoom : Dedup → List Key → List Reading → Type 0
HasRoom d seen rs =
    (device_id : String)
    → length (device_seen d device_id).order
        + length (select (is_device device_id) (reference Key_discrete key seen rs))
      ≤ max_sequences_per_device

is_device_self : (r : Reading) → is_device r.device_id r ≡ true
is_device_self r = if_pos (String_discrete r.device_id r.device_id) refl true false

Agrees-admit :
    (d d' : Dedup) (seen : List Key) (r : Reading)
    → Agrees d seen
    → ((other : String)
        → (device_seen d' other).order ≡ (
            if is_device other r
            then (device_seen d other).order ++ (r.sequence ∷ [])
            else (device_seen d other).order))
    → Agrees d' (key r ∷ seen)
unfolding contains Key_discrete
Agrees-admit d d' seen r agrees grown k =
    let order = (device_seen d k.device).order in
    ground (
      arith,
      agrees k,
      ap (λ (o : List ℕ). contains ℕ_discrete o k.seq) (grown k.device),
      contains-append ℕ_discrete order (r.sequence ∷ []) k.seq,
    )

exact_from :
    (d : Dedup) (seen : List Key) (rs : List Reading)
    → IsDedup d
    → Agrees d seen
    → HasRoom d seen rs
    → (admit_all d rs).1 ≡ reference Key_discrete key seen rs
unfolding admit_all reference
exact_from d seen [] v agrees room = refl
exact_from d seen (r ∷ rs) v agrees room =
    let order = (device_seen d r.device_id).order in
    let d' = (admit d r.device_id r.sequence).0 in
    let v' = admit-IsDedup d r.device_id r.sequence v in
    elim (Bool-cases (contains ℕ_discrete order r.sequence)) [
      | inl old ↦
          let known : contains Key_discrete seen (key r) ≡ true = agrees (key r) ∙ old in
          let (refused, kept) = admit_old d r v old in
          rw (refused, known)
            (exact_from d' seen rs v' (λ k. rw (kept k.device) (agrees k))
              (λ other. rw (kept other) (ground (arith, room other, known))))
      | inr fresh ↦
          let known : contains Key_discrete seen (key r) ≡ false = agrees (key r) ∙ fresh in
          let space : length order + 1 ≤ max_sequences_per_device =
            ground (arith, room r.device_id, is_device_self r, known) in
          let (accepted, grown) = admit_new d r v fresh space in
          rw (accepted, known)
            (ap (◌∷◌ r) (
              exact_from d' (key r ∷ seen) rs v' (Agrees-admit d d' seen r agrees grown) (λ other.
                ground (
                  arith,
                  room other,
                  known,
                  ap (λ (o : List ℕ). length o) (grown other),
                  length-append (device_seen d other).order (r.sequence ∷ []),
                ))))
    ]

-- As long as no device sends more than 4096 distinct sequences, in whatever order the readings of all
-- devices arrive and however often each is repeated, the deduplication admits exactly the readings
-- that the reference keeps, in the same order.
pub admit_all-reference_dedup :
    (rs : List Reading)
    → ((device_id : String)
        → length (select (is_device device_id) (reference_dedup rs)) ≤ max_sequences_per_device)
    → (admit_all new_dedup rs).1 ≡ reference_dedup rs
unfolding reference_dedup device_seen contains lookup
admit_all-reference_dedup rs few =
    exact_from new_dedup [] rs tt (λ k. refl) (λ device_id. omega (arith, few device_id))
