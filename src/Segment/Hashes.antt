-- ===== src/Segment/Hashes.antt =====
-- The two commands on hashes that internal/segment uses: what Redis documents of them, and what the counters
-- and times of a profile are after the commands of one event.
pub mod Step
use device_telemetry_gateway.Common.{
  ℕ, zero, suc, ◌+◌, ◌^◌, ◌<◌, ◌≤◌, ◌≡◌, ◌≢◌, refl, ◌∙◌, ap, Bool, true, if◌then◌else◌, ite, if_pos,
  if_neg, List, [], ◌∷◌, Option, none, some, String, String_discrete, All, lookup, arith,
}
use device_telemetry_gateway.Common.Int.{ℤ, pos, negsuc, pos_part}
use device_telemetry_gateway.Common.Decimal.{decimal}
use device_telemetry_gateway.Proto.{StorefrontEvent}
use device_telemetry_gateway.Segment.Floats.{Floats}
use device_telemetry_gateway.Segment.Definitions.{Segment}
use device_telemetry_gateway.Segment.ParseInt.{parse_int}
use device_telemetry_gateway.Segment.ParseInt.Text.{parse_int-decimal}
use device_telemetry_gateway.Segment.Redis.{
  Redis, Key, Command, key_of, h_incr_by, h_set, stats_key, catviews_key, purch_key,
  touched_profiles, run_all,
}
use device_telemetry_gateway.Segment.Evaluate.{field}
use device_telemetry_gateway.Segment.Incremental.{
  event_commands, type_commands, purchase_commands, view_commands,
}

-- A counter that has reached `n`, or a time: the decimal text, and no field at all for 0.
abbrev pub entry : ℕ → Option String
entry zero = none
entry (suc n) = some (decimal (suc n))

pub parse_int-entry :
    (hash : List (String × String)) (f : String) (n : ℕ)
    → lookup String_discrete f hash ≡ entry n
    → n < 2 ^ 63
    → parse_int (field hash f) ≡ pos n
unfolding field parse_int
parse_int-entry hash f zero h small = rw h refl
parse_int-entry hash f (suc n) h small = rw h (parse_int-decimal (suc n) small)

-- HSET and HINCRBY write one field, in decimal; HINCRBY reads a missing field as 0 and fails on overflow.
pub record Hashes (redis : Redis) : Type 0 where
  pub lookup-h_set :
      (s : redis.Store) (k : Key) (f : String) (n : ℕ) (g : String)
      → lookup String_discrete g (redis.h_get_all (redis.run (h_set k f (pos n)) s) k)
        ≡ ite
            (String_discrete g f)
            (some (decimal n))
            (lookup String_discrete g (redis.h_get_all s k))
  pub lookup-h_incr_by :
      (s : redis.Store) (k : Key) (f : String) (m n : ℕ) (g : String)
      → lookup String_discrete f (redis.h_get_all s k) ≡ entry m
      → m + suc n < 2 ^ 63
      → lookup String_discrete g (redis.h_get_all (redis.run (h_incr_by k f (suc n)) s) k)
        ≡ ite
            (String_discrete g f)
            (some (decimal (m + suc n)))
            (lookup String_discrete g (redis.h_get_all s k))

-- The counters and times of one profile, and its views of each category.
pub record Known : Type 0 where
  pub stats : String → ℕ
  pub views : String → ℕ

abbrev pub at : String → ℕ → (String → ℕ) → String → ℕ
at f n m g = ite (String_discrete g f) n (m g)

abbrev pub count_up : String → Known → Known
count_up f t = record t { stats = at f (t.stats f + 1) t.stats }

abbrev pub put : String → ℕ → Known → Known
put f n t = record t { stats = at f n t.stats }

abbrev pub view : String → Known → Known
view c t = ite (String_discrete c "") t (record t { views = at c (t.views c + 1) t.views })

abbrev pub typed : StorefrontEvent → Known → Known
typed ev t =
    ite (String_discrete ev.event_type "purchase")
      (put "last_purchase_ts" (pos_part ev.timestamp_ms) (count_up "purchase_count_total" t))
      (ite (String_discrete ev.event_type "add_to_cart")
        (put "last_cartadd_ts" (pos_part ev.timestamp_ms) t)
        (ite (String_discrete ev.event_type "page_view") (view (field ev.attributes "category") t)
          t))

abbrev pub step : StorefrontEvent → Known → Known
step ev t = typed ev (put "last_event_ts" (pos_part ev.timestamp_ms) (count_up "total_events" t))

-- No counter is above `n`.
pub record Below (n : ℕ) (t : Known) : Type 0 where
  pub events : t.stats "total_events" ≤ n
  pub purchases : t.stats "purchase_count_total" ≤ n
  pub views : (c : String) → c ≢ "" → t.views c ≤ n

entry_up : (m : ℕ) → 0 < m → some (decimal m) ≡ entry m
entry_up zero h = absurd (omega arith)
entry_up (suc m) h = refl

ite-entry :
    {P : Type 0} (d : Dec P) (m n : ℕ) (e : Option String)
    → e ≡ entry m
    → ite d (entry n) e ≡ entry (ite d n m)
ite-entry d m n e h = ground arith

module _ (redis : Redis) where
  abbrev pub stat : redis.Store → String → String → Option String
  stat s p f = lookup String_discrete f (redis.h_get_all s (stats_key p))

  abbrev pub viewings : redis.Store → String → String → Option String
  viewings s p c = lookup String_discrete c (redis.h_get_all s (catviews_key p))

  pub record Tracks (s : redis.Store) (p : String) (t : Known) : Type 0 where
    pub stats : (f : String) → stat s p f ≡ entry (t.stats f)
    pub views : (c : String) → viewings s p c ≡ entry (t.views c)

  -- Commands on other keys.
  pub h_get_all-run_all :
      (cs : List Command) (s : redis.Store) (k : Key)
      → All (λ c. key_of c ≢ k) cs
      → redis.h_get_all (run_all redis cs s) k ≡ redis.h_get_all s k
  h_get_all-run_all [] s k h = refl
  h_get_all-run_all (c ∷ cs) s k h =
      h_get_all-run_all cs (redis.run c s) k h.1 ∙ redis.h_get_all_elsewhere c s k h.0

  pub Tracks-elsewhere :
      (c : Command) (s : redis.Store) (p : String) (t : Known)
      → key_of c ≢ stats_key p
      → key_of c ≢ catviews_key p
      → Tracks s p t
      → Tracks (redis.run c s) p t
  Tracks-elsewhere c s p t h g tracks = record {
    stats = λ f.
        ap (lookup String_discrete f) (redis.h_get_all_elsewhere c s (stats_key p) h)
        ∙ tracks.stats f;
    views = λ f.
        ap (lookup String_discrete f) (redis.h_get_all_elsewhere c s (catviews_key p) g)
        ∙ tracks.views f;
  }

  module _ (hashes : Hashes redis) where
    pub Tracks-count_up :
        (s : redis.Store) (p f : String) (t : Known)
        → t.stats f + 1 < 2 ^ 63
        → Tracks s p t
        → Tracks (redis.run (h_incr_by (stats_key p) f 1) s) p (count_up f t)
    Tracks-count_up s p f t small tracks = record {
      stats = λ g.
          hashes.lookup-h_incr_by s (stats_key p) f (t.stats f) 0 g (tracks.stats f) small
          ∙ ap (λ e. ite (String_discrete g f) e (stat s p g))
              (entry_up (t.stats f + 1) (omega arith))
          ∙ ite-entry (String_discrete g f) (t.stats g) (t.stats f + 1) (stat s p g)
              (tracks.stats g);
      views = λ c.
          ap (lookup String_discrete c)
            (redis.h_get_all_elsewhere (h_incr_by (stats_key p) f 1) s (catviews_key p) (λ e. cc))
          ∙ tracks.views c;
    }

    pub Tracks-put :
        (s : redis.Store) (p f : String) (v : ℤ) (t : Known)
        → 0 < pos_part v
        → Tracks s p t
        → Tracks (redis.run (h_set (stats_key p) f v) s) p (put f (pos_part v) t)
    Tracks-put s p f (negsuc n) t h tracks = absurd (omega arith)
    Tracks-put s p f (pos n) t h tracks = record {
      stats = λ g.
          hashes.lookup-h_set s (stats_key p) f n g
          ∙ ap (λ e. ite (String_discrete g f) e (stat s p g)) (entry_up n h)
          ∙ ite-entry (String_discrete g f) (t.stats g) n (stat s p g) (tracks.stats g);
      views = λ c.
          ap (lookup String_discrete c)
            (redis.h_get_all_elsewhere (h_set (stats_key p) f (pos n)) s (catviews_key p) (λ e. cc))
          ∙ tracks.views c;
    }

    pub Tracks-view :
        (s : redis.Store) (p c : String) (t : Known)
        → t.views c + 1 < 2 ^ 63
        → Tracks s p t
        → Tracks
            (redis.run (h_incr_by (catviews_key p) c 1) s)
            p
            (record t { views = at c (t.views c + 1) t.views })
    Tracks-view s p c t small tracks = record {
      stats = λ g.
          ap (lookup String_discrete g)
            (redis.h_get_all_elsewhere (h_incr_by (catviews_key p) c 1) s (stats_key p) (λ e. cc))
          ∙ tracks.stats g;
      views = λ g.
          hashes.lookup-h_incr_by s (catviews_key p) c (t.views c) 0 g (tracks.views c) small
          ∙ ap (λ e. ite (String_discrete g c) e (viewings s p g))
              (entry_up (t.views c + 1) (omega arith))
          ∙ ite-entry (String_discrete g c) (t.views g) (t.views c + 1) (viewings s p g)
              (tracks.views g);
    }
