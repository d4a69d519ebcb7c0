-- ===== src/Ingest/Dedup.antt =====
-- internal/ingest/dedup.go and the reference of internal/ingest/reference.go.
pub mod Valid
pub mod Devices
pub mod Exact
pub mod Window
pub mod Again
use device_telemetry_gateway.Common.{
  ℕ, ◌+◌, Bool, true, false, if◌then◌else◌, List, [], ◌∷◌, Option, none, some, String, ite,
  String_discrete, ℕ_discrete, lookup, insert, length, reference, ◌≡◌, ap, contains, ◌++◌,
}
use device_telemetry_gateway.Proto.{Reading}
use device_telemetry_gateway.Fifo
use device_telemetry_gateway.Fifo.{Fifo}

abbrev pub max_sequences_per_device : ℕ
max_sequences_per_device = 4096

-- A set of sequences and their insertion order.
abbrev pub DeviceSeen : Type 0
DeviceSeen = Fifo ℕ

-- The mutex makes every method one step, so a value of this type is the state between two calls.
pub record Dedup : Type 0 where
  pub seen : List (String × DeviceSeen)

abbrev pub new_dedup : Dedup
new_dedup = record { seen = [] }

-- The record of the device, a new one if `d.seen` has none.
abbrev or_new : Option DeviceSeen → DeviceSeen
or_new none = Fifo.empty
or_new (some ds) = ds

unfoldable pub device_seen : Dedup → String → DeviceSeen
device_seen d device_id = or_new (lookup String_discrete device_id d.seen)

unfoldable pub admit : Dedup → String → ℕ → Dedup × Bool
admit d device_id sequence =
    let ds = device_seen d device_id in
    let (ds', fresh) = Fifo.admit ℕ_discrete max_sequences_per_device ds sequence in
    (record { seen = insert String_discrete device_id ds' d.seen }, fresh)

total_entries : List (String × DeviceSeen) → ℕ
total_entries [] = 0
total_entries ((_, ds) ∷ rest) = length ds.set + total_entries rest

unfoldable pub entry_count : Dedup → ℕ
unfolding total_entries
entry_count d = total_entries d.seen

pub device_count : Dedup → ℕ
device_count d = length d.seen

-- `type key struct` of `ReferenceDedup`.
pub record Key : Type 0 where
  pub device : String
  pub seq : ℕ

pub Key-equal : (a b : Key) → a.device ≡ b.device → a.seq ≡ b.seq → a ≡ b
Key-equal a b p q = λ i. record { device = p i; seq = q i }

unfoldable pub Key_discrete : Discrete Key
unfolding String_discrete ℕ_discrete
Key_discrete a b = elim (String_discrete a.device b.device) [
  | yes p ↦ elim (ℕ_discrete a.seq b.seq) [
    | yes q ↦ yes (Key-equal a b p q)
    | no q ↦ no (λ e. q (ap (λ k. k.seq) e))
  ]
  | no p ↦ no (λ e. p (ap (λ k. k.device) e))
]

abbrev pub key : Reading → Key
key r = record { device = r.device_id; seq = r.sequence }

unfoldable pub reference_dedup : List Reading → List Reading
unfolding reference Key_discrete
reference_dedup = reference Key_discrete key []

-- A run of `Admit` over readings in the order in which the calls take the lock.
unfoldable pub admit_all : Dedup → List Reading → Dedup × List Reading
admit_all d [] = (d, [])
admit_all d (r ∷ rs) =
    let (d', fresh) = admit d r.device_id r.sequence in
    let (last, out) = admit_all d' rs in (last, if fresh then r ∷ out else out)
