-- ===== src/Segment/Recompute/Summary.antt =====
-- What the engine knows of a profile after its events, from the rows of the profile in the event log.
use mathlib.Core.Path.{ap₂}
use device_telemetry_gateway.Common.{
  ℕ, ◌+◌, ◌<◌, ◌≤◌, leb, if◌then◌else◌, Bool, true, false, ◌&&◌, ◌≡◌, ◌≢◌, refl, ap, ◌∙◌,
  Bool-cases, inl, inr, subst, if_pos, if_neg, List, [], ◌∷◌, map, String, String_discrete, tally,
  length, All, arith,
}
use device_telemetry_gateway.Common.Int.{ℤ, pos, negsuc, pos_part}
use device_telemetry_gateway.Proto.{StorefrontEvent}
use device_telemetry_gateway.Segment.Evaluate.{field}
use device_telemetry_gateway.Segment.Hashes.{Known, step}
use device_telemetry_gateway.Segment.Hashes.Step.{Stepped, step-Stepped, known_after}
use device_telemetry_gateway.Segment.Recompute.{
  ChRow, ch_row, same, group_of, max_if, max_timestamp, has_type, later,
}

abbrev pub time : ChRow → ℕ
time r = pos_part r.timestamp

-- The time of a row of the given type, and 0 for the others.
abbrev pub time_if : String → ChRow → ℕ
time_if t r = if has_type t r then time r else 0

abbrev pub max : ℕ → ℕ → ℕ
max a b = if leb a b then b else a

abbrev pub top : (ChRow → ℕ) → List ChRow → ℕ
top f [] = 0
top f (r ∷ rs) = max (f r) (top f rs)

-- No row is earlier than the one before it, or than the given time.
abbrev pub Ascending : ℕ → List ChRow → Type 0
Ascending m [] = Unit
Ascending m (r ∷ rs) = (m ≤ time r) × Ascending (time r) rs

abbrev pub viewed : String → ChRow → Bool
viewed c r = has_type "page_view" r && same (field r.attributes "category") c

pub record Summary (t : Known) (rs : List ChRow) (t' : Known) : Type 0 where
  pub events : t'.stats "total_events" ≡ t.stats "total_events" + length rs
  pub purchases :
      t'.stats "purchase_count_total"
      ≡ t.stats "purchase_count_total" + tally (has_type "purchase") rs
  pub last : t'.stats "last_event_ts" ≡ max (t.stats "last_event_ts") (top time rs)
  pub cart :
      t'.stats "last_cartadd_ts" ≡ max (t.stats "last_cartadd_ts") (top (time_if "add_to_cart") rs)
  pub bought :
      t'.stats "last_purchase_ts" ≡ max (t.stats "last_purchase_ts") (top (time_if "purchase") rs)
  pub views : (c : String) → c ≢ "" → t'.views c ≡ t.views c + tally (viewed c) rs

-- The last event of a profile is its latest so far.
pub record Ordered (t : Known) : Type 0 where
  pub cart : t.stats "last_cartadd_ts" ≤ t.stats "last_event_ts"
  pub bought : t.stats "last_purchase_ts" ≤ t.stats "last_event_ts"

step-Ordered :
    (ev : StorefrontEvent) (t : Known)
    → t.stats "last_event_ts" ≤ pos_part ev.timestamp_ms
    → Ordered t
    → Ordered (step ev t)
step-Ordered ev t h o =
    let stepped = step-Stepped ev t in
    record {
      cart = ground (arith, o.cart, stepped.cart, stepped.last);
      bought = ground (arith, o.bought, stepped.bought, stepped.last);
    }

one_more :
    (ev : StorefrontEvent) (t t' t'' : Known) (rs : List ChRow)
    → Stepped ev t t'
    → t.stats "last_event_ts" ≤ pos_part ev.timestamp_ms
    → Ordered t
    → Summary t' rs t''
    → Summary t (ch_row ev ∷ rs) t''
one_more ev t t' t'' rs one h o rest = record {
  events = omega (arith, one.events, rest.events);
  purchases = ground (arith, one.purchases, rest.purchases);
  last = ground (arith, one.last, rest.last);
  cart = ground (arith, one.cart, rest.cart, o.cart);
  bought = ground (arith, one.bought, rest.bought, o.bought);
  views = λ c n. ground (arith, one.views c n, rest.views c n);
}

-- The events of a profile in the order of their times, from a state that knows of no later one.
pub known_after-Summary :
    (p : String) (evs : List StorefrontEvent) (t : Known)
    → Ascending (t.stats "last_event_ts") (group_of p (map ch_row evs))
    → Ordered t
    → Summary t (group_of p (map ch_row evs)) (known_after p evs t)
unfolding known_after
known_after-Summary p [] t asc o = record {
  events = omega arith;
  purchases = omega arith;
  last = ground arith;
  cart = ground arith;
  bought = ground arith;
  views = λ c n. omega arith;
}
known_after-Summary p (ev ∷ evs) t asc o = elim (String_discrete ev.profile_id p) [
  | yes e ↦
      let rest = group_of p (map ch_row evs) in
      let mine : group_of p (map ch_row (ev ∷ evs)) ≡ ch_row ev ∷ rest = rw (if_pos _ e) refl in
      let (h, asc') = subst (Ascending (t.stats "last_event_ts")) mine asc in
      let known = step-Stepped ev t in
      rw (if_pos _ e, if_pos _ e)
        (one_more ev t (step ev t) _ rest known h o
          (known_after-Summary p evs (step ev t) (rw (known.last) asc') (step-Ordered ev t h o)))
  | no e ↦
      let others : group_of p (map ch_row (ev ∷ evs)) ≡ group_of p (map ch_row evs) =
        rw (if_neg _ e) refl in
      rw (if_neg _ e, if_neg _ e)
        (known_after-Summary p evs t (subst (Ascending (t.stats "last_event_ts")) others asc) o)
]

at_time : (z : ℤ) → 0 < pos_part z → z ≡ pos (pos_part z)
at_time (pos n) h = refl
at_time (negsuc n) h = absurd (omega arith)

time_or_zero :
    (t : String) (r : ChRow)
    → 0 < time r
    → (if has_type t r then r.timestamp else pos 0) ≡ pos (time_if t r)
time_or_zero t r h = elim (Bool-cases (has_type t r)) [
  | inl yes_ ↦ rw yes_ (at_time r.timestamp h)
  | inr no_ ↦ rw no_ refl
]

later_pos : (a b : ℕ) → later (pos a) (pos b) ≡ pos (max a b)
later_pos a b = elim (Bool-cases (leb a b)) [
  | inl yes_ ↦ let h : leb (a + 0) (b + 0) ≡ true = ground arith in rw (h, yes_) refl
  | inr no_ ↦ let h : leb (a + 0) (b + 0) ≡ false = ground arith in rw (h, no_) refl
]

pub max_if-top :
    (t : String) (rs : List ChRow)
    → All (λ r. 0 < time r) rs
    → max_if t rs ≡ pos (top (time_if t) rs)
unfolding max_if
max_if-top t [] h = refl
max_if-top t (r ∷ []) h = time_or_zero t r h.0 ∙ ap pos (ground arith)
max_if-top t (r ∷ q ∷ rs) h =
    ap₂ later (time_or_zero t r h.0) (max_if-top t (q ∷ rs) h.1)
    ∙ later_pos (time_if t r) (top (time_if t) (q ∷ rs))

pub max_timestamp-top :
    (rs : List ChRow) → All (λ r. 0 < time r) rs → max_timestamp rs ≡ pos (top time rs)
unfolding max_timestamp
max_timestamp-top [] h = refl
max_timestamp-top (r ∷ []) h = at_time r.timestamp h.0 ∙ ap pos (ground arith)
max_timestamp-top (r ∷ q ∷ rs) h =
    ap₂ later (at_time r.timestamp h.0) (max_timestamp-top (q ∷ rs) h.1)
    ∙ later_pos (time r) (top time (q ∷ rs))
