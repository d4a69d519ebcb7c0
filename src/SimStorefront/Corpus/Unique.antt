-- ===== src/SimStorefront/Corpus/Unique.antt =====
-- The event ids of a corpus.
use device_telemetry_gateway.Common.{
  ℕ, suc, ◌≡◌, ◌≢◌, ◌⊎◌, inl, inr, ◌<◌, refl, sym, ap, ◌∙◌, if_neg, Bool, false, List, [], ◌∷◌,
  ◌++◌, map, String_discrete, Distinct, contains, tally-append, SameItems, arith,
}
use Prim.Native.String.{◌++◌ as join}
use device_telemetry_gateway.Common.Decimal.{
  padded, is_digit, read_numbers, read_numbers_dash, read_numbers-before, read_numbers-nil_before,
  read_numbers-padded_end,
}
use device_telemetry_gateway.Proto.{StorefrontEvent}
use device_telemetry_gateway.EventIngest.{event_key, reference_dedup}
use device_telemetry_gateway.Repeats.Keys.{Distinct-SameItems}
use device_telemetry_gateway.Repeats.Laws.{reference-with_repeats}
use device_telemetry_gateway.SimStorefront.{flatten, sort_events}
use device_telemetry_gateway.SimStorefront.Sorted.{sort_events-Chronological}
use device_telemetry_gateway.SimStorefront.Corpus.{
  EventDraw, event_type_of, event_id_of, events_from, build_from, build, with_duplicates,
}

read_numbers-event_id_of : (p i : ℕ) → read_numbers 0 (event_id_of p i) ≡ 0 ∷ 0 ∷ 0 ∷ 0 ∷ p ∷ i ∷ []
unfolding event_id_of is_digit
read_numbers-event_id_of p i =
    let tail = join (padded 8 p) (join "-" (padded 4 i)) in
    read_numbers-before "e" "vt-" tail refl (
      read_numbers-before "v" "t-" tail refl (
        read_numbers-before "t" "-" tail refl (
          read_numbers-before "-" "" tail refl (
            read_numbers-nil_before tail
              (read_numbers_dash 8 p (padded 4 i) (read_numbers-padded_end 4 i))))))

event_id_of_ne : (p q i j : ℕ) → (p ≢ q) ⊎ (i ≢ j) → event_id_of p i ≢ event_id_of q j
event_id_of_ne p q i j h e =
    let same : 0 ∷ 0 ∷ 0 ∷ 0 ∷ p ∷ i ∷ [] ≡ 0 ∷ 0 ∷ 0 ∷ 0 ∷ q ∷ j ∷ [] =
      sym (read_numbers-event_id_of p i) ∙ ap (read_numbers 0) e ∙ read_numbers-event_id_of q j in
    ground arith

-- The events in the order in which they are drawn.
drawn_from : ℕ → List (List EventDraw) → List StorefrontEvent
drawn_from p [] = []
drawn_from p (ds ∷ draws) = events_from p 0 false ds ++ drawn_from (suc p) draws

-- Other profiles, and later events of the same one, have other ids.
events_from-lacks :
    (ds : List EventDraw) (p i q j : ℕ) (cart_open : Bool) (rest : List StorefrontEvent)
    → (q ≢ p) ⊎ (j < i)
    → contains String_discrete (map event_key rest) (event_id_of q j) ≡ false
    → contains String_discrete
        (map event_key (events_from p i cart_open ds ++ rest))
        (event_id_of q j)
      ≡ false
unfolding events_from contains
events_from-lacks [] p i q j cart_open rest h r = r
events_from-lacks (d ∷ ds) p i q j cart_open rest h r =
    rw (if_neg _ (apart h))
      (events_from-lacks ds p (suc i) q j (event_type_of d cart_open).1 rest (later h) r)
  where
    apart : (q ≢ p) ⊎ (j < i) → event_id_of q j ≢ event_id_of p i
    apart (inl other) = event_id_of_ne q p j i (inl other)
    apart (inr before) = event_id_of_ne q p j i (inr (λ e. omega arith))

    later : (q ≢ p) ⊎ (j < i) → (q ≢ p) ⊎ (j < suc i)
    later (inl other) = inl other
    later (inr before) = inr (omega arith)

events_from-Distinct :
    (ds : List EventDraw) (p i : ℕ) (cart_open : Bool) (rest : List StorefrontEvent)
    → ((j : ℕ) → contains String_discrete (map event_key rest) (event_id_of p j) ≡ false)
    → Distinct String_discrete (map event_key rest)
    → Distinct String_discrete (map event_key (events_from p i cart_open ds ++ rest))
unfolding events_from
events_from-Distinct [] p i cart_open rest r d = d
events_from-Distinct (e ∷ ds) p i cart_open rest r d = (
  events_from-lacks ds p (suc i) p i (event_type_of e cart_open).1 rest (inr (omega arith)) (r i),
  events_from-Distinct ds p (suc i) (event_type_of e cart_open).1 rest r d,
)

drawn_from-lacks :
    (draws : List (List EventDraw)) (p q j : ℕ)
    → q < p
    → contains String_discrete (map event_key (drawn_from p draws)) (event_id_of q j) ≡ false
unfolding drawn_from contains
drawn_from-lacks [] p q j h = refl
drawn_from-lacks (ds ∷ draws) p q j h =
    events_from-lacks ds p 0 q j false (drawn_from (suc p) draws) (inl (λ e. omega arith))
      (drawn_from-lacks draws (suc p) q j (omega arith))

drawn_from-Distinct :
    (draws : List (List EventDraw)) (p : ℕ)
    → Distinct String_discrete (map event_key (drawn_from p draws))
unfolding drawn_from
drawn_from-Distinct [] p = tt
drawn_from-Distinct (ds ∷ draws) p =
    events_from-Distinct ds p 0 false (drawn_from (suc p) draws)
      (λ j. drawn_from-lacks draws (suc p) p j (omega arith)) (drawn_from-Distinct draws (suc p))

-- The sort of each profile keeps the events.
flatten-SameItems :
    (draws : List (List EventDraw)) (p : ℕ)
    → SameItems (flatten (build_from p draws)) (drawn_from p draws)
unfolding flatten build_from drawn_from
flatten-SameItems [] p test = refl
flatten-SameItems (ds ∷ draws) p test =
    let drawn = events_from p 0 false ds in
    omega (
      arith,
      tally-append test (sort_events drawn) (flatten (build_from (suc p) draws)),
      tally-append test drawn (drawn_from (suc p) draws),
      flatten-SameItems draws (suc p) test,
      (sort_events-Chronological drawn).1 test,
    )

-- Whatever is drawn: the event ids of a corpus are distinct; and of its delivery with any duplicates, in any
-- order, the reference deduplication keeps exactly the events of the corpus, each once.
pub with_duplicates-build :
    (draws : List (List EventDraw)) (picks : List ℕ) (swaps : List (ℕ × ℕ))
    → let corpus = flatten (build draws) in
      Distinct String_discrete (map (λ e. e.event_id) corpus)
      × SameItems (reference_dedup (with_duplicates corpus picks swaps)) corpus
unfolding build with_duplicates reference_dedup
with_duplicates-build draws picks swaps =
    let corpus = flatten (build_from 0 draws) in
    let distinct =
      Distinct-SameItems String_discrete event_key corpus (drawn_from 0 draws)
        (flatten-SameItems draws 0) (drawn_from-Distinct draws 0) in
    (distinct, reference-with_repeats String_discrete event_key corpus picks swaps distinct)
