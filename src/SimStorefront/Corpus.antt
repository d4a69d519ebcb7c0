-- ===== src/SimStorefront/Corpus.antt =====
-- internal/simstorefront/corpus.go: `Build` and `WithDuplicates`. What `rng` draws is an argument; a draw that is
-- only compared is given by the comparisons.
pub mod Unique
use Prim.Native.String.{◌++◌ as join}
use device_telemetry_gateway.Common.{
  ℕ, zero, suc, if◌then◌else◌, Bool, true, false, ◌&&◌, List, [], ◌∷◌, ◌++◌, map, Option, none,
  some, String,
}
use device_telemetry_gateway.Common.Int.{ℤ}
use device_telemetry_gateway.Common.Decimal.{padded}
use device_telemetry_gateway.Proto.{StorefrontEvent}
use device_telemetry_gateway.Repeats.{get_elem?, with_repeats}
use device_telemetry_gateway.Segment.Definitions.{categories}
use device_telemetry_gateway.SimStorefront.{ProfileEvents, sort_events}

-- The draws for one event: the time in milliseconds, whether `r` is below each of the four bounds, the index of the
-- category, the printed price, and the number of the sku.
pub record EventDraw : Type 0 where
  pub time : ℤ
  pub below_55 : Bool
  pub below_80 : Bool
  pub below_92 : Bool
  pub below_97 : Bool
  pub category : ℕ
  pub price : String
  pub sku : ℕ

-- The switch: the type of an event, and whether a cart is open after it.
pub event_type_of : EventDraw → Bool → String × Bool
event_type_of d cart_open =
    if d.below_55
    then ("page_view", cart_open)
    else if d.below_80
    then ("add_to_cart", true)
    else if d.below_92 && cart_open
    then ("purchase", false)
    else if d.below_97 && cart_open
    then ("cart_abandon", false)
    else ("page_view", cart_open)

-- `segment.Categories[i]`; the index lies in range.
category_of : ℕ → String
category_of i = elim (get_elem? categories i) [ some c ↦ c | none ↦ "" ]

has_price : EventDraw → Bool → Bool
has_price d cart_open =
    if d.below_55 then false else if d.below_80 then true else d.below_92 && cart_open

attributes_of : EventDraw → Bool → List (String × String)
unfolding category_of has_price
attributes_of d cart_open =
    ("category", category_of d.category)
    ∷ (if has_price d cart_open
        then ("price", d.price) ∷ ("sku", join "sku-" (padded 5 d.sku)) ∷ []
        else [])

pub event_id_of : ℕ → ℕ → String
event_id_of p i = join "evt-" (join (padded 8 p) (join "-" (padded 4 i)))

pub profile_id_of : ℕ → String
profile_id_of p = join "profile-" (padded 8 p)

-- The events of profile p from index i on.
pub events_from : ℕ → ℕ → Bool → List EventDraw → List StorefrontEvent
unfolding event_type_of attributes_of event_id_of profile_id_of
events_from p i cart_open [] = []
events_from p i cart_open (d ∷ ds) =
    let (kind, cart_open') = event_type_of d cart_open in
    record {
      event_id = event_id_of p i;
      profile_id = profile_id_of p;
      event_type = kind;
      timestamp_ms = d.time;
      attributes = attributes_of d cart_open;
    }
    ∷ events_from p (suc i) cart_open' ds

-- `Build`, from profile p on; `draws` has the draws of each profile.
pub build_from : ℕ → List (List EventDraw) → List ProfileEvents
unfolding events_from profile_id_of sort_events
build_from p [] = []
build_from p (ds ∷ draws) =
    record { profile_id = profile_id_of p; events = sort_events (events_from p 0 false ds) }
    ∷ build_from (suc p) draws

pub build : List (List EventDraw) → List ProfileEvents
unfolding build_from
build = build_from 0

unfoldable pub with_duplicates : List StorefrontEvent → List ℕ → List (ℕ × ℕ) → List StorefrontEvent
unfolding with_repeats
with_duplicates = with_repeats
