-- ===== src/Segment/Recompute.antt =====
-- internal/segment/recompute.go, the membership of a segment from the whole event log, and the table of
-- internal/segment/clickhouse.go that it queries. The SQL texts are functions on the rows; times are
-- milliseconds of the Unix epoch, and a day of an interval has 24 hours.
pub mod Groups
pub mod Summary
pub mod Families
pub mod Listed
pub mod Agree
use Prim.Native.Char.{code}
use device_telemetry_gateway.Common.{
  ◌||◌, ℕ, ◌*◌, leb, if◌then◌else◌, ite, Bool, true, false, ◌&&◌, ◌==◌, List, [], ◌∷◌, ◌++◌, map,
  Option, none, some, String, String_discrete, select, tally, length, reference,
}
use device_telemetry_gateway.Common.Int.{ℤ, pos, ◌-ℤ◌, leb_ℤ, ltb_ℤ}
use device_telemetry_gateway.Proto.{StorefrontEvent}
use device_telemetry_gateway.Segment.Floats.{Floats}
use device_telemetry_gateway.Segment.Definitions.{
  Segment, Family, purchase_count_min, cart_abandon_days, category_view_min, purchase_value_min,
  recently_active_hours, never_purchased, churn_risk_days, multi_category_min,
}
use device_telemetry_gateway.Segment.Evaluate.{field, unix}

-- A row of the table `events`.
pub record ChRow : Type 0 where
  pub event_id : String
  pub profile_id : String
  pub event_type : String
  pub timestamp : ℤ
  pub attributes : List (String × String)

abbrev pub ch_row : StorefrontEvent → ChRow
ch_row e = record {
  event_id = e.event_id;
  profile_id = e.profile_id;
  event_type = e.event_type;
  timestamp = e.timestamp_ms;
  attributes = e.attributes;
}

-- The HTTP request of an insert: answered, refused, or answered with an error after the rows are in.
pub data Posted : Type 0 where
  accepted refused landed : Posted

-- `InsertBatch`: one request, none for an empty batch. The flag is its success.
unfoldable pub insert_batch : List ChRow → List StorefrontEvent → Posted → List ChRow × Bool
insert_batch log [] posted = (log, true)
insert_batch log (e ∷ es) accepted = (log ++ map ch_row (e ∷ es), true)
insert_batch log (e ∷ es) refused = (log, false)
insert_batch log (e ∷ es) landed = (log ++ map ch_row (e ∷ es), false)

-- Whether two texts are the same.
abbrev pub same : String → String → Bool
same a b = ite (String_discrete a b) true false

-- The values of a column, each once.
unfoldable pub distinct : List String → List String
unfolding reference
distinct = reference String_discrete (λ v. v) []

-- `CountRows` and `CountDistinctProfiles`.
pub count_rows : List ChRow → ℕ
count_rows = length

pub count_distinct_profiles : List ChRow → ℕ
unfolding distinct
count_distinct_profiles log = length (distinct (map (λ r. r.profile_id) log))

abbrev pub has_type : String → ChRow → Bool
has_type t r = same r.event_type t

abbrev pub later : ℤ → ℤ → ℤ
later a b = if leb_ℤ a b then b else a

-- `max(if(event_type = t, timestamp, toDateTime64(0,3)))` over the rows of a group.
unfoldable pub max_if : String → List ChRow → ℤ
max_if t [] = pos 0
max_if t (r ∷ []) = if has_type t r then r.timestamp else pos 0
max_if t (r ∷ rs) = later (if has_type t r then r.timestamp else pos 0) (max_if t rs)

-- `max(timestamp)` over the rows of a group, which has one at least.
unfoldable pub max_timestamp : List ChRow → ℤ
max_timestamp [] = pos 0
max_timestamp (r ∷ []) = r.timestamp
max_timestamp (r ∷ rs) = later r.timestamp (max_timestamp rs)

-- `dateDiff('second', a, b) >= n`: the seconds are counted between the full seconds of the two times.
unfoldable pub seconds_apart : ℤ → ℤ → ℕ → Bool
unfolding unix ◌-ℤ◌
seconds_apart a b n = leb_ℤ (pos n) (unix b -ℤ unix a)

-- A text without a quote or a backslash: between quotes it is the SQL literal of itself.
unfoldable pub is_plain : String → Bool
is_plain String.[] = true
is_plain (String.◌∷◌ c s) =
    let rest = is_plain s in if (code c == 39) || (code c == 92) then false else rest

-- Only one family has a text in its query.
unfoldable pub quotes_itself : Family → String → Bool
unfolding is_plain
quotes_itself category_view_min category = is_plain category
quotes_itself _ category = true

-- The rows of one profile.
abbrev pub group_of : String → List ChRow → List ChRow
group_of p rs = select (λ r. same r.profile_id p) rs

module _ (floats : Floats) (to_float_or_zero : String → floats.Float) where
  pub price_sum : List ChRow → floats.Float
  unfolding field
  price_sum [] = floats.of_ℕ 0
  price_sum (r ∷ rs) = floats.plus (price_sum rs) (to_float_or_zero (field r.attributes "price"))

  -- The WHERE clause of the query of each family, for a category that `quotes_itself`.
  unfoldable pub wanted : Family → Segment floats.Float → ℤ → ChRow → Bool
  unfolding field ◌-ℤ◌
  wanted purchase_count_min seg as_of r =
      has_type "purchase" r
      && leb_ℤ r.timestamp as_of
      && leb_ℤ (as_of -ℤ pos (seg.window_days * 86_400_000)) r.timestamp
  wanted purchase_value_min seg as_of r =
      has_type "purchase" r
      && leb_ℤ r.timestamp as_of
      && leb_ℤ (as_of -ℤ pos (seg.window_days * 86_400_000)) r.timestamp
  wanted cart_abandon_days seg as_of r = leb_ℤ r.timestamp as_of
  wanted category_view_min seg as_of r =
      has_type "page_view" r
      && same (field r.attributes "category") seg.category
      && leb_ℤ r.timestamp as_of
  wanted recently_active_hours seg as_of r =
      leb_ℤ r.timestamp as_of && leb_ℤ (as_of -ℤ pos (seg.min_hours * 3_600_000)) r.timestamp
  wanted never_purchased seg as_of r = leb_ℤ r.timestamp as_of
  wanted churn_risk_days seg as_of r = leb_ℤ r.timestamp as_of
  wanted multi_category_min seg as_of r = has_type "page_view" r && leb_ℤ r.timestamp as_of

  -- The HAVING clause, on the rows of one profile; the query of `recently_active_hours` has none.
  unfoldable pub having : Family → Segment floats.Float → ℤ → List ChRow → Bool
  unfolding max_if max_timestamp seconds_apart field price_sum distinct
  having purchase_count_min seg as_of rs = leb seg.min_count (length rs)
  having purchase_value_min seg as_of rs = floats.at_least (price_sum rs) seg.min_value
  having cart_abandon_days seg as_of rs =
      ltb_ℤ (max_if "purchase" rs) (max_if "add_to_cart" rs)
      && seconds_apart (max_if "add_to_cart" rs) as_of (seg.min_days * 86_400)
  having category_view_min seg as_of rs = leb seg.min_count (length rs)
  having recently_active_hours seg as_of rs = true
  having never_purchased seg as_of rs = tally (has_type "purchase") rs == 0
  having churn_risk_days seg as_of rs =
      leb 1 (tally (has_type "purchase") rs)
      && seconds_apart (max_timestamp rs) as_of (seg.min_days * 86_400)
  having multi_category_min seg as_of rs =
      leb seg.min_distinct (length (distinct (map (λ r. field r.attributes "category") rs)))

  -- `SELECT profile_id FROM events WHERE … GROUP BY profile_id HAVING …`
  unfoldable pub query_profile_ids : List ChRow → Segment floats.Float → ℤ → List String
  unfolding wanted having distinct
  query_profile_ids log seg as_of =
      let rows = select (wanted seg.family seg as_of) log in
      select (λ p. having seg.family seg as_of (group_of p rows))
        (distinct (map (λ r. r.profile_id) rows))

  -- `Recompute`, with the keys of its map; `none` is the error of a query that fails. The category goes into
  -- the text of the query as it is: if it can end the literal early or is an escape, the query is another one,
  -- and `other` is what ClickHouse answers to it.
  unfoldable pub recompute :
      List ChRow → Segment floats.Float → ℤ → Bool → Option (List String) → Option (List String)
  unfolding query_profile_ids quotes_itself
  recompute log seg as_of true other = none
  recompute log seg as_of false other =
      if quotes_itself seg.family seg.category
      then some (query_profile_ids log seg as_of)
      else other
