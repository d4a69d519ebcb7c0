-- ===== src/Segment/Recompute/Families.antt =====
-- The test of the engine on the counters of a profile, against the query on the rows of the profile, family by family.
use device_telemetry_gateway.Common.{
  ℕ, ◌+◌, ◌*◌, ◌%◌, ◌<◌, ◌≤◌, leb, ltb, if◌then◌else◌, Bool, true, ◌&&◌, ◌≡◌, ◌≢◌, refl, Bool-cases,
  inl, inr, ap, ◌∙◌, List, [], ◌∷◌, String, select, tally, length, All, arith,
}
use device_telemetry_gateway.Common.Int.{pos, ◌-ℤ◌}
use device_telemetry_gateway.Segment.Floats.{Floats}
use device_telemetry_gateway.Segment.Definitions.{
  Segment, Family, purchase_count_min, cart_abandon_days, category_view_min, purchase_value_min,
  recently_active_hours, never_purchased, churn_risk_days, multi_category_min,
}
use device_telemetry_gateway.Segment.Durations.{days-le-time_sub, time_sub-le-hours}
use device_telemetry_gateway.Segment.ParseInt.{parse_int}
use device_telemetry_gateway.Segment.Redis.{Redis}
use device_telemetry_gateway.Segment.Evaluate.{field, holds, Numbers, unix}
use device_telemetry_gateway.Segment.Evaluate.Batch.{belongs}
use device_telemetry_gateway.Segment.Recompute.{
  ChRow, is_plain, quotes_itself, wanted, having, has_type,
}
use device_telemetry_gateway.Segment.Recompute.Groups.{length-select}
use device_telemetry_gateway.Segment.Recompute.Summary.{
  time, time_if, top, viewed, max_if-top, max_timestamp-top,
}

-- The families that look at counters and single times only, with thresholds that make sense: spans of time
-- below 2^63 nanoseconds, and a category that the text of the query quotes as it stands.
abbrev pub Comparable : {F : Type 0} → Family → Segment F → Type 0
Comparable cart_abandon_days seg = seg.min_days ≤ 106_751
Comparable category_view_min seg =
    (0 < seg.min_count) × (seg.category ≢ "") × (is_plain seg.category ≡ true)
Comparable recently_active_hours seg = seg.min_hours ≤ 2_562_047
Comparable never_purchased seg = Unit
Comparable churn_risk_days seg = seg.min_days ≤ 106_751
Comparable purchase_count_min seg = ⊥
Comparable purchase_value_min seg = ⊥
Comparable multi_category_min seg = ⊥

pub Comparable-quotes_itself :
    {F : Type 0} (family : Family) (seg : Segment F)
    → Comparable family seg
    → quotes_itself family seg.category ≡ true
unfolding quotes_itself
Comparable-quotes_itself cart_abandon_days seg h = refl
Comparable-quotes_itself category_view_min seg h = h.2
Comparable-quotes_itself recently_active_hours seg h = refl
Comparable-quotes_itself never_purchased seg h = refl
Comparable-quotes_itself churn_risk_days seg h = refl
Comparable-quotes_itself purchase_count_min seg h = absurd h
Comparable-quotes_itself purchase_value_min seg h = absurd h
Comparable-quotes_itself multi_category_min seg h = absurd h

-- A row is after the epoch, not later than the given time, and not later in its second than that time in its own.
abbrev pub Timed : ℕ → ChRow → Type 0
Timed a r = (0 < time r) × (time r ≤ a) × (time r % 1000 ≤ a % 1000)

-- The counters of the engine are what the rows say.
pub record Counted (rs : List ChRow) (n : Numbers) : Type 0 where
  pub events : n.total_events ≡ pos (length rs)
  pub purchases : n.purchase_count_total ≡ pos (tally (has_type "purchase") rs)
  pub last : n.last_event_ts ≡ pos (top time rs)
  pub cart : n.last_cart_add_ts ≡ pos (top (time_if "add_to_cart") rs)
  pub bought : n.last_purchase_ts ≡ pos (top (time_if "purchase") rs)
  pub views : (c : String) → c ≢ "" → parse_int (field n.catviews c) ≡ pos (tally (viewed c) rs)

top-All :
    (P : ℕ → Type 0) (f : ChRow → ℕ) (rs : List ChRow) → P 0 → All (λ r. P (f r)) rs → P (top f rs)
top-All P f [] z h = z
top-All P f (r ∷ rs) z h = elim (Bool-cases (leb (f r) (top f rs))) [
  | inl yes_ ↦ rw yes_ (top-All P f rs z h.1)
  | inr no_ ↦ rw no_ (h.0)
]

select-All : (f : ChRow → Bool) (rs : List ChRow) → All (λ r. f r ≡ true) rs → select f rs ≡ rs
select-All f [] h = refl
select-All f (r ∷ rs) h = rw h.0 (ap (◌∷◌ r) (select-All f rs h.1))

pub tally_le_length : (f : ChRow → Bool) (rs : List ChRow) → tally f rs ≤ length rs
tally_le_length f [] = omega arith
tally_le_length f (r ∷ rs) = ground (arith, tally_le_length f rs)

-- Rows after the epoch have a time, if there is any.
top_positive : (rs : List ChRow) → All (λ r. 0 < time r) rs → 0 < length rs → 0 < top time rs
top_positive [] h some_ = absurd (omega arith)
top_positive (r ∷ rs) h some_ = ground (arith, h.0)

time_if_some : (t : String) (rs : List ChRow) → 0 < top (time_if t) rs → 0 < length rs
time_if_some t [] h = absurd (omega arith)
time_if_some t (r ∷ rs) h = omega arith

tally_same :
    (f g : ChRow → Bool) (rs : List ChRow) → All (λ r. f r ≡ g r) rs → tally f rs ≡ tally g rs
tally_same f g [] h = refl
tally_same f g (r ∷ rs) h = rw h.0 (ap (λ n. (if g r then 1 else 0) + n) (tally_same f g rs h.1))

-- Some row is in the window exactly if the latest is.
window_top :
    (f : ChRow → Bool) (a w : ℕ) (rs : List ChRow)
    → All (λ r. (0 < time r) × (f r ≡ leb a (time r + w))) rs
    → leb 1 (tally f rs) ≡ ltb 0 (top time rs) && leb a (top time rs + w)
window_top f a w [] h = ground arith
window_top f a w (r ∷ rs) h = ground (arith, window_top f a w rs h.1, h.0.0, h.0.1)

pub map-All :
    {A : Type 0} (P Q : A → Type 0) (xs : List A) → ((x : A) → P x → Q x) → All P xs → All Q xs
map-All P Q [] f h = tt
map-All P Q (x ∷ xs) f h = (f x h.0, map-All P Q xs f h.1)

-- The latest time of the rows is a time of theirs, or 0.
pub top-Timed :
    (a : ℕ) (f : ChRow → ℕ) (rs : List ChRow)
    → All (λ r. (f r ≤ a) × (f r % 1000 ≤ a % 1000)) rs
    → (top f rs ≤ a) × (top f rs % 1000 ≤ a % 1000)
top-Timed a f rs h =
    top-All (λ m. (m ≤ a) × (m % 1000 ≤ a % 1000)) f rs (omega arith, omega arith) h

module _ (redis : Redis) (floats : Floats) (to_float_or_zero : String → floats.Float) where
  module _ (s : redis.Store) (p : String) (a : ℕ) (rs : List ChRow) (n : Numbers)
      (seg : Segment floats.Float) where
    abbrev pub Agrees : Family → Type 0
    Agrees family =
        All (Timed a) rs
        → Counted rs n
        → let mine = select (wanted floats to_float_or_zero family seg (pos a)) rs in
          belongs redis floats s p (pos a) family seg n
          ≡ leb 1 (length mine) && having floats to_float_or_zero family seg (pos a) mine

    -- WHERE keeps every row for the three families without a filter of their own.
    select-wanted :
        (family : Family)
        → ((r : ChRow) → Timed a r → wanted floats to_float_or_zero family seg (pos a) r ≡ true)
        → All (Timed a) rs
        → select (wanted floats to_float_or_zero family seg (pos a)) rs ≡ rs
    select-wanted family h timed = select-All _ rs (map-All (Timed a) _ rs h timed)

    after_epoch : All (Timed a) rs → All (λ r. 0 < time r) rs
    after_epoch timed = map-All (Timed a) (λ r. 0 < time r) rs (λ r h. h.0) timed

    Early : ℕ → Type 0
    Early m = (m ≤ a) × (m % 1000 ≤ a % 1000)

    never : Agrees never_purchased
    unfolding belongs holds wanted having
    never timed counted =
        rw
          (
            select-wanted never_purchased (λ r h. ground arith) timed,
            counted.events,
            counted.purchases,
          )
          (ground arith)

    churn : seg.min_days ≤ 106_751 → Agrees churn_risk_days
    unfolding Early belongs holds wanted having ◌-ℤ◌ unix
    churn span timed counted =
        let (early, second) =
          top-Timed a time rs (
            map-All (Timed a) (λ r. Early (time r)) rs (λ r (_, le, second). (le, second)) timed) in
        rw
          (
            select-wanted churn_risk_days (λ r h. ground arith) timed,
            counted.purchases,
            counted.last,
            max_timestamp-top rs (after_epoch timed),
            days-le-time_sub a (top time rs) seg.min_days span early,
          )
          (ground
            (arith, top_positive rs (after_epoch timed), tally_le_length (has_type "purchase") rs))

    cart : seg.min_days ≤ 106_751 → Agrees cart_abandon_days
    unfolding Early belongs holds wanted having ◌-ℤ◌ unix
    cart span timed counted =
        let (early, second) = top-Timed a (time_if "add_to_cart") rs (
          map-All (Timed a) (λ r. Early (time_if "add_to_cart" r)) rs (λ r h. ground arith)
            timed) in
        rw
          (
            select-wanted cart_abandon_days (λ r h. ground arith) timed,
            counted.cart,
            counted.bought,
            max_if-top "add_to_cart" rs (after_epoch timed),
            max_if-top "purchase" rs (after_epoch timed),
            days-le-time_sub a (top (time_if "add_to_cart") rs) seg.min_days span early,
          )
          (ground (arith, time_if_some "add_to_cart" rs))

    views : 0 < seg.min_count → seg.category ≢ "" → Agrees category_view_min
    unfolding belongs holds wanted having
    views some_ named timed counted =
        let mine : length (select (wanted floats to_float_or_zero category_view_min seg (pos a)) rs)
            ≡ tally (viewed seg.category) rs =
          length-select (wanted floats to_float_or_zero category_view_min seg (pos a)) rs
          ∙ tally_same _ (viewed seg.category) rs
              (map-All (Timed a) _ rs (λ r h. ground arith) timed) in
        rw (mine, counted.views seg.category named) (ground arith)

    active : seg.min_hours ≤ 2_562_047 → Agrees recently_active_hours
    unfolding Early belongs holds wanted having ◌-ℤ◌
    active span timed counted =
        let keep = wanted floats to_float_or_zero recently_active_hours seg (pos a) in
        let found : leb 1 (tally keep rs)
            ≡ ltb 0 (top time rs) && leb a (top time rs + seg.min_hours * 3_600_000) =
          window_top keep a (seg.min_hours * 3_600_000) rs
            (map-All (Timed a) _ rs (λ r h. (h.0, ground arith)) timed) in
        let (early, _) =
          top-Timed a time rs (
            map-All (Timed a) (λ r. Early (time r)) rs (λ r (_, le, second). (le, second)) timed) in
        rw
          (
            counted.last,
            length-select keep rs,
            found,
            time_sub-le-hours a (top time rs) seg.min_hours span early,
          )
          (ground arith)

    pub family_agrees : (family : Family) → Comparable family seg → Agrees family
    family_agrees never_purchased h = never
    family_agrees churn_risk_days h = churn h
    family_agrees cart_abandon_days h = cart h
    family_agrees category_view_min h = views h.0 h.1
    family_agrees recently_active_hours h = active h
    family_agrees purchase_count_min h = absurd h
    family_agrees purchase_value_min h = absurd h
    family_agrees multi_category_min h = absurd h
