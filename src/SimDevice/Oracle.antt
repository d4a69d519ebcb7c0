-- ===== src/SimDevice/Oracle.antt =====
-- The two oracles of the tests agree: AllUnique and ReferenceDedup.
use device_telemetry_gateway.Common.{
  ℕ, ◌≡◌, ◌≢◌, refl, sym, ap, ◌∙◌, false, if◌then◌else◌, if_pos, if_neg, List, [], ◌∷◌, ◌++◌, map,
  String, String_discrete, ℕ_discrete, All, Distinct, contains, reference, arith, Bool-cases, inl,
  inr,
}
use device_telemetry_gateway.Proto.{Reading}
use device_telemetry_gateway.Ingest.Dedup.{Key, Key_discrete, key, reference_dedup}
use device_telemetry_gateway.SimDevice.{DeviceStream, all_unique}

abbrev pub deliveries : List DeviceStream → List Reading
deliveries [] = []
deliveries (s ∷ ss) = s.delivery ++ deliveries ss

abbrev pub OfDevice : String → List Reading → Type 0
OfDevice device_id rs = All (λ r. r.device_id ≡ device_id) rs

abbrev seen_after : List Key → List Reading → List Key
seen_after seen [] = seen
seen_after seen (r ∷ rs) =
    if contains Key_discrete seen (key r) then seen_after seen rs else seen_after (key r ∷ seen) rs

reference-append :
    (seen : List Key) (xs ys : List Reading)
    → reference Key_discrete key seen (xs ++ ys)
      ≡ reference Key_discrete key seen xs ++ reference Key_discrete key (seen_after seen xs) ys
unfolding reference
reference-append seen [] ys = refl
reference-append seen (r ∷ xs) ys = elim (Bool-cases (contains Key_discrete seen (key r))) [
  | inl old ↦ rw old (reference-append seen xs ys)
  | inr new ↦ rw new (ap (◌∷◌ r) (reference-append (key r ∷ seen) xs ys))
]

abbrev key_at : String → ℕ → Key
key_at device_id sequence = record { device = device_id; seq = sequence }

-- A map of sequences that has those of the device in `seen`.
abbrev Agree : String → List ℕ → List Key → Type 0
Agree device_id numbers seen =
    (n : ℕ) → contains ℕ_discrete numbers n ≡ contains Key_discrete seen (key_at device_id n)

grow-Agree :
    (device_id : String) (numbers : List ℕ) (seen : List Key) (r : Reading)
    → r.device_id ≡ device_id
    → Agree device_id numbers seen
    → Agree device_id (r.sequence ∷ numbers) (key r ∷ seen)
unfolding contains
grow-Agree device_id numbers seen r mine agree n =
    elim (Key_discrete (key_at device_id n) (key r)) [
      | yes e ↦ rw (if_pos _ e, if_pos _ (ap (λ (k : Key). k.seq) e))
      | no e ↦
          let other : n ≢ r.sequence = λ p. e (λ i. record { device = sym mine i; seq = p i }) in
          rw (if_neg _ e, if_neg _ other) (agree n)
    ]

reference-OfDevice :
    (device_id : String) (numbers : List ℕ) (seen : List Key) (rs : List Reading)
    → OfDevice device_id rs
    → Agree device_id numbers seen
    → reference ℕ_discrete (λ (r : Reading). r.sequence) numbers rs
      ≡ reference Key_discrete key seen rs
unfolding reference
reference-OfDevice device_id numbers seen [] own agree = refl
reference-OfDevice device_id numbers seen (r ∷ rs) (mine, own) agree =
    let same : key r ≡ key_at device_id r.sequence =
      λ i. record { device = mine i; seq = r.sequence } in
    let known : contains ℕ_discrete numbers r.sequence ≡ contains Key_discrete seen (key r) =
      agree r.sequence ∙ ap (contains Key_discrete seen) (sym same) in
    elim (Bool-cases (contains Key_discrete seen (key r))) [
      | inl old ↦ rw (known, old) (reference-OfDevice device_id numbers seen rs own agree)
      | inr new ↦
          rw (known, new)
            (ap (◌∷◌ r) (
              reference-OfDevice device_id (r.sequence ∷ numbers) (key r ∷ seen) rs own
                (grow-Agree device_id numbers seen r mine agree)))
    ]

contains-key_other :
    (seen : List Key) (r : Reading) (other : String) (n : ℕ)
    → other ≢ r.device_id
    → contains Key_discrete (key r ∷ seen) (key_at other n)
      ≡ contains Key_discrete seen (key_at other n)
unfolding contains Key_discrete
contains-key_other seen r other n h = ground arith

contains-seen_after :
    (device_id other : String) (seen : List Key) (rs : List Reading) (n : ℕ)
    → other ≢ device_id
    → OfDevice device_id rs
    → contains Key_discrete (seen_after seen rs) (key_at other n)
      ≡ contains Key_discrete seen (key_at other n)
contains-seen_after device_id other seen [] n h own = refl
contains-seen_after device_id other seen (r ∷ rs) n h (mine, own) =
    elim (Bool-cases (contains Key_discrete seen (key r))) [
      | inl old ↦ rw old (contains-seen_after device_id other seen rs n h own)
      | inr new ↦ rw new (
          contains-seen_after device_id other (key r ∷ seen) rs n h own
          ∙ contains-key_other seen r other n (λ e. h (e ∙ mine)))
    ]

abbrev Unseen : List Key → List DeviceStream → Type 0
Unseen seen =
    All (λ (s : DeviceStream). (n : ℕ) → contains Key_discrete seen (key_at s.device_id n) ≡ false)

abbrev pub device_ids : List DeviceStream → List String
device_ids = map (λ s. s.device_id)

still-Unseen :
    (device_id : String) (seen : List Key) (rs : List Reading) (ss : List DeviceStream)
    → OfDevice device_id rs
    → contains String_discrete (device_ids ss) device_id ≡ false
    → Unseen seen ss
    → Unseen (seen_after seen rs) ss
unfolding contains
still-Unseen device_id seen rs [] own new unseen = tt
still-Unseen device_id seen rs (s ∷ ss) own new unseen = (
  (λ n. contains-seen_after device_id s.device_id seen rs n (λ e. ground arith) own ∙ unseen.0 n),
  still-Unseen device_id seen rs ss own (ground arith) unseen.1,
)

unique_from :
    (seen : List Key) (ss : List DeviceStream)
    → Distinct String_discrete (device_ids ss)
    → All (λ s. OfDevice s.device_id s.delivery) ss
    → Unseen seen ss
    → all_unique ss ≡ reference Key_discrete key seen (deliveries ss)
unfolding all_unique reference contains
unique_from seen [] d own unseen = refl
unique_from seen (s ∷ ss) d own unseen =
    ap (λ t. t ++ all_unique ss)
      (reference-OfDevice s.device_id [] seen s.delivery own.0 (λ n. sym (unseen.0 n)))
    ∙ ap (λ t. reference Key_discrete key seen s.delivery ++ t)
        (unique_from (seen_after seen s.delivery) ss d.1 own.1
          (still-Unseen s.device_id seen s.delivery ss own.0 d.0 unseen.1))
    ∙ sym (reference-append seen s.delivery (deliveries ss))

nothing-Unseen : (ss : List DeviceStream) → Unseen [] ss
unfolding contains
nothing-Unseen [] = tt
nothing-Unseen (s ∷ ss) = ((λ n. refl), nothing-Unseen ss)

-- If the streams are of different devices and each holds readings of its own device only, AllUnique is the
-- reference deduplication of the streams one after the other.
pub all_unique-reference_dedup :
    (ss : List DeviceStream)
    → Distinct String_discrete (device_ids ss)
    → All (λ s. OfDevice s.device_id s.delivery) ss
    → all_unique ss ≡ reference_dedup (deliveries ss)
unfolding reference_dedup
all_unique-reference_dedup ss d own = unique_from [] ss d own (nothing-Unseen ss)
