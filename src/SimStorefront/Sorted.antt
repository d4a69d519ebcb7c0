-- ===== src/SimStorefront/Sorted.antt =====
-- The insertion sort of a profile's events.
use device_telemetry_gateway.Common.{
  ◌+◌, ◌≡◌, refl, Bool, if◌then◌else◌, List, [], ◌∷◌, tally, SameItems, arith, Bool-cases, inl, inr,
}
use device_telemetry_gateway.Common.Int.{◌≤ℤ◌, ltb_ℤ}
use device_telemetry_gateway.Proto.{StorefrontEvent}
use device_telemetry_gateway.SimStorefront.{sink, sort_loop, backwards, sort_events}

-- No event of the list is later than the one before it.
abbrev Before : StorefrontEvent → List StorefrontEvent → Type 0
Before e [] = Unit {0}
Before e (f ∷ rest) = f.timestamp_ms ≤ℤ e.timestamp_ms

abbrev Backwards : List StorefrontEvent → Type 0
Backwards [] = Unit {0}
Backwards (e ∷ rest) = Before e rest × Backwards rest

-- No event is earlier than the one before it.
abbrev After : StorefrontEvent → List StorefrontEvent → Type 0
After e [] = Unit {0}
After e (f ∷ rest) = e.timestamp_ms ≤ℤ f.timestamp_ms

abbrev pub Chronological : List StorefrontEvent → Type 0
Chronological [] = Unit {0}
Chronological (e ∷ rest) = After e rest × Chronological rest

sink-Before :
    (top e : StorefrontEvent) (rest : List StorefrontEvent)
    → e.timestamp_ms ≤ℤ top.timestamp_ms
    → Before top rest
    → Before top (sink e rest)
unfolding sink
sink-Before top e [] h b = h
sink-Before top e (f ∷ rest) h b = elim (Bool-cases (ltb_ℤ e.timestamp_ms f.timestamp_ms)) [
  | inl earlier ↦ rw earlier b
  | inr later ↦ rw later h
]

sink-Backwards :
    (e : StorefrontEvent) (rest : List StorefrontEvent) → Backwards rest → Backwards (sink e rest)
unfolding sink
sink-Backwards e [] b = (tt, tt)
sink-Backwards e (f ∷ rest) b = elim (Bool-cases (ltb_ℤ e.timestamp_ms f.timestamp_ms)) [
  | inl earlier ↦ rw earlier (sink-Before f e rest (ground arith) b.0, sink-Backwards e rest b.1)
  | inr later ↦ rw later (ground arith, b)
]

sort_loop-Backwards :
    (sorted es : List StorefrontEvent) → Backwards sorted → Backwards (sort_loop sorted es)
unfolding sort_loop
sort_loop-Backwards sorted [] b = b
sort_loop-Backwards sorted (e ∷ es) b =
    sort_loop-Backwards (sink e sorted) es (sink-Backwards e sorted b)

Touch : List StorefrontEvent → List StorefrontEvent → Type 0
Touch [] out = Unit {0}
Touch (e ∷ es) out = After e out

backwards-Chronological :
    (es out : List StorefrontEvent)
    → Backwards es
    → Chronological out
    → Touch es out
    → Chronological (backwards es out)
unfolding Touch
backwards-Chronological [] out b c t = c
backwards-Chronological (e ∷ []) out b c t = (t, c)
backwards-Chronological (e ∷ f ∷ es) out b c t =
    backwards-Chronological (f ∷ es) (e ∷ out) b.1 (t, c) b.0

tally-sink :
    (p : StorefrontEvent → Bool) (e : StorefrontEvent) (rest : List StorefrontEvent)
    → tally p (sink e rest) ≡ (if p e then 1 else 0) + tally p rest
unfolding sink
tally-sink p e [] = refl
tally-sink p e (f ∷ rest) = elim (Bool-cases (ltb_ℤ e.timestamp_ms f.timestamp_ms)) [
  | inl earlier ↦ rw earlier (omega (arith, tally-sink p e rest))
  | inr later ↦ rw later
]

tally-sort_loop :
    (p : StorefrontEvent → Bool) (sorted es : List StorefrontEvent)
    → tally p (sort_loop sorted es) ≡ tally p sorted + tally p es
unfolding sort_loop
tally-sort_loop p sorted [] = omega arith
tally-sort_loop p sorted (e ∷ es) =
    omega (arith, tally-sort_loop p (sink e sorted) es, tally-sink p e sorted)

tally-backwards :
    (p : StorefrontEvent → Bool) (es out : List StorefrontEvent)
    → tally p (backwards es out) ≡ tally p es + tally p out
tally-backwards p [] out = omega arith
tally-backwards p (e ∷ es) out = omega (arith, tally-backwards p es (e ∷ out))

-- The events of a profile come out in chronological order, each as often as it came in.
pub sort_events-Chronological :
    (events : List StorefrontEvent)
    → Chronological (sort_events events) × SameItems (sort_events events) events
unfolding sort_events
sort_events-Chronological events = (
  ordered (sort_loop [] events) (sort_loop-Backwards [] events tt),
  λ p. omega (arith, tally-backwards p (sort_loop [] events) [], tally-sort_loop p [] events),
)
  where
    ordered : (es : List StorefrontEvent) → Backwards es → Chronological (backwards es [])
    ordered [] b = tt
    ordered (e ∷ es) b = backwards-Chronological (e ∷ es) [] b tt (unfold Touch in tt)
